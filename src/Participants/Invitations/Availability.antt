-- ===== src/Participants/Invitations/Availability.antt =====
-- `resendAvailability` of apps/gateway/src/ParticipantInvitationService.js.
use creator_first_platform.Base.{
  ℕ, ◌+◌, ◌-◌, Bool, true, false, Option, none, some, ◌&&◌, leb, ltb, if◌then◌else◌,
}
use creator_first_platform.Participants.Rows.{Invitation}
use creator_first_platform.Participants.Store.Invitations.{is_sent}

abbrev pub first_resend_delay_ms : ℕ
first_resend_delay_ms = 300000

abbrev pub resend_cooldown_ms : ℕ
resend_cooldown_ms = 600000

abbrev pub resend_window_ms : ℕ
resend_window_ms = 86400000

abbrev pub max_resends_per_window : ℕ
max_resends_per_window = 3

pub record Availability : Type 0 where
  pub available : Bool
  pub available_at : Option ℕ
  pub attempts_remaining : ℕ
  pub window_started_at : Option ℕ
  -- 0 where the object has no such field
  pub resend_count : ℕ

abbrev pub unavailable : Availability
unavailable = record {
  available = false;
  available_at = none;
  attempts_remaining = 0;
  window_started_at = none;
  resend_count = 0;
}

abbrev pub is_window_over : Option ℕ → ℕ → Bool
is_window_over none now = true
is_window_over (some start) now = leb (start + resend_window_ms) now

abbrev pub window_start : Option ℕ → ℕ → ℕ
window_start none now = now
window_start (some start) now = if leb (start + resend_window_ms) now then now else start

-- `row.last_resend_at ?? row.sent_at ?? row.created_at`
abbrev pub last_send : Option ℕ → Option ℕ → ℕ → ℕ
last_send none none created = created
last_send none (some sent) created = sent
last_send (some resent) _ created = resent

abbrev pub resend_delay : Option ℕ → ℕ
resend_delay none = first_resend_delay_ms
resend_delay (some _) = resend_cooldown_ms

abbrev pub used_resends : Invitation → ℕ → ℕ
used_resends row now =
    if is_window_over row.resend_window_started_at now then 0 else row.resend_count

-- the moment from which a resend is allowed
abbrev pub resend_at : Invitation → ℕ
resend_at row =
    last_send row.last_resend_at row.sent_at row.created_at + resend_delay row.last_resend_at

unfoldable pub resend_availability : Option Invitation → ℕ → Availability
resend_availability none now = unavailable
resend_availability (some row) now =
    if is_sent row.state && ltb now row.expires_at
    then (if leb max_resends_per_window (used_resends row now)
        then record unavailable {
          available_at = some (window_start row.resend_window_started_at now + resend_window_ms);
        }
        else record {
          available = leb (resend_at row) now;
          available_at = some (resend_at row);
          attempts_remaining = max_resends_per_window - used_resends row now;
          window_started_at = some (window_start row.resend_window_started_at now);
          resend_count = used_resends row now;
        })
    else unavailable
