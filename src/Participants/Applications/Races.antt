-- ===== src/Participants/Applications/Races.antt =====
-- A decision on an application while another one awaits the mailer.
use creator_first_platform.Base.{
  ℕ, String, ◌≡◌, refl, Bool, true, false, none, some, arith, ◌==◌, ◌&&◌, if◌then◌else◌,
}
use creator_first_platform.Base.Table.{select_holds}
use creator_first_platform.Base.Table.Keyed.{select-update_key}
use creator_first_platform.Base.Exec.{ok}
use creator_first_platform.Participants.Forms.{TextMethods}
use creator_first_platform.Participants.Rows.{
  Application, ApplicationState, rejected, approved_invitation_sent, RejectionCode, Invitation,
  sent, Database,
}
use creator_first_platform.Participants.Store.Applications.{
  participant_application_by_id, has_application_id, is_under_review, is_approvable,
  update_application, reject_participant_application, approve_participant_application,
  record_participant_application_event,
}
use creator_first_platform.Participants.Store.Invitations.{
  participant_invitation_by_id, mark_participant_invitation_sent, is_pending, is_markable,
  has_invitation_id, record_participant_invitation_event,
}
use creator_first_platform.Participants.Invitations.Service.{send_finish}
use creator_first_platform.Participants.Applications.Service.{approve_end, reject_begin}

abbrev approved_row : Application → ℕ → ℕ → Application
approved_row e invitation_id now = record e {
  state = approved_invitation_sent;
  invitation_id = some invitation_id;
  reviewed_at = some now;
  rejection_code = none;
}

update_application_row :
    (id : ℕ) (test : ApplicationState → Bool) (f : Application → Application) (e : Application)
    (db : Database)
    → ((y : Application) → (f y).application_id ≡ y.application_id)
    → participant_application_by_id id db ≡ some e
    → participant_application_by_id id (update_application id test f db)
      ≡ some (if test e.state then f e else e)
unfolding update_application participant_application_by_id
update_application_row id test f e db keep h = ground (
  arith,
  select_holds (has_application_id id) e db.applications h,
  select-update_key (λ r. r.application_id) (λ r. r.application_id == id && test r.state) f keep id
      e db.applications h,
)

abbrev pub rejected_row : Application → RejectionCode → ℕ → Application
rejected_row e code now = record e {
  state = rejected;
  rejection_code = some code;
  reviewed_at = some now;
}

reject_begin_lem :
    (id : ℕ) (code : RejectionCode) (now : ℕ) (row : Application) (db : Database)
    → participant_application_by_id id db ≡ some row
    → (reject_begin id (some code) now db).0 ≡ ok tt
    → (is_under_review row.state ≡ true
        → participant_application_by_id id (reject_begin id (some code) now db).1
          ≡ some (rejected_row row code now))
      × ((reject_begin id (some code) now db).1.invitations ≡ db.invitations)
unfolding reject_begin reject_participant_application
reject_begin_lem id code now row db found done =
    let updated =
      update_application_row id is_under_review (λ e. rejected_row e code now) row db (λ y. refl)
        found in
    (λ u. ground arith, ground arith)

module _ (digest : String → ℕ) (methods : TextMethods) where
  -- A decision by mail that has gone out cannot take back a rejection.
  approve_end_lem :
      (id invitation_id : ℕ) (t now : ℕ) (row : Application) (db : Database)
      → participant_application_by_id id db ≡ some row
      → is_approvable row.state ≡ false
      → (approve_end digest methods id invitation_id (ok t) now db).0 ≡ ok row
        × ((approve_end digest methods id invitation_id (ok t) now db).1.invitations
            ≡ db.invitations)
  unfolding approve_end approve_participant_application record_participant_application_event
      participant_application_by_id
  approve_end_lem id invitation_id t now row db found u =
      let updated =
        update_application_row id is_approvable (λ e. approved_row e invitation_id now) row db
          (λ y. refl) found in
      (ground arith, ground arith)

  send_finish_lem :
      (invitation_id delivery t : ℕ) (i : Invitation) (db : Database)
      → participant_invitation_by_id invitation_id db ≡ some i
      → is_pending i.state ≡ true
      → (participant_invitation_by_id invitation_id
            (send_finish digest methods invitation_id (some delivery) t db).1
          ≡ some (record i { state = sent; sent_at = some t }))
        × ((send_finish digest methods invitation_id (some delivery) t db).1.applications
            ≡ db.applications)
  unfolding send_finish mark_participant_invitation_sent record_participant_invitation_event
      participant_invitation_by_id
  send_finish_lem invitation_id delivery t i db found p =
      let updated =
        select-update_key (λ (r : Invitation). r.invitation_id) (is_markable invitation_id)
          (λ r. record r { state = sent; sent_at = some t }) (λ y. refl) invitation_id i
          db.invitations found in
      (
        ground (arith, select_holds (has_invitation_id invitation_id) i db.invitations found),
        ground arith,
      )

  -- Where an application under review is rejected while its approval awaits the mailer, and the
  -- mail goes out, the application ends as rejected although its invitation is sent, and the
  -- approval answers without an error.
  pub rejected_while_mailing :
      (id invitation_id delivery t now reviewed : ℕ) (code : RejectionCode) (row : Application)
      (i : Invitation) (db : Database)
      → participant_application_by_id id db ≡ some row
      → is_under_review row.state ≡ true
      → participant_invitation_by_id invitation_id db ≡ some i
      → is_pending i.state ≡ true
      → (reject_begin id (some code) now db).0 ≡ ok tt
      → let mailed : Database =
          (send_finish digest methods invitation_id
            (some delivery)
            t
            (reject_begin id (some code) now db).1).1 in
        ((approve_end digest methods id invitation_id (ok t) reviewed mailed).0
          ≡ ok (rejected_row row code now))
        × (participant_invitation_by_id invitation_id
              (approve_end digest methods id invitation_id (ok t) reviewed mailed).1
            ≡ some (record i { state = sent; sent_at = some t }))
  unfolding participant_invitation_by_id participant_application_by_id
  rejected_while_mailing id invitation_id delivery t now reviewed code row i db found u invited p
        done =
      let (turned, same) = reject_begin_lem id code now row db found done in
      let db1 : Database = (reject_begin id (some code) now db).1 in
      let (marked, same') = send_finish_lem invitation_id delivery t i db1 (ground arith) p in
      let db2 : Database = (send_finish digest methods invitation_id (some delivery) t db1).1 in
      let (answer, same2) =
        approve_end_lem id invitation_id t reviewed (rejected_row row code now) db2
          (ground (arith, turned u)) refl in
      (answer, ground arith)
