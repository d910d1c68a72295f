-- ===== src/Participants/Forms.antt =====
-- The tests that ParticipantInvitationService.js and ParticipantApplicationService.js make of
-- e-mail addresses, names and roles, and the texts that come before them.
use Prim.Native.Char.{code}
use creator_first_platform.Base.{
  ℕ, String, Bool, true, false, Option, none, some, ◌&&◌, ◌||◌, not, ◌==◌, leb, utf16_length,
  if◌then◌else◌,
}

-- The methods of JavaScript texts that rest on the tables of Unicode.
pub record TextMethods : Type 0 where
  pub trim : String → String
  pub to_lower_case : String → String
  pub normalize_nfkc : String → String

-- `\s`
abbrev is_space : ℕ → Bool
is_space c =
    (leb 9 c && leb c 13)
    || c == 32
    || c == 160
    || c == 5760
    || (leb 8192 c && leb c 8202)
    || c == 8232
    || c == 8233
    || c == 8239
    || c == 8287
    || c == 12288
    || c == 65279

-- `[^\s@]`
unfoldable pub is_plain : ℕ → Bool
is_plain c = not (is_space c) && not (c == b'@')

unfoldable pub all_plain : String → Bool
unfolding is_plain
all_plain String.[] = true
all_plain (String.◌∷◌ c s) = is_plain (code c) && all_plain s

abbrev is_empty : String → Bool
is_empty String.[] = true
is_empty (String.◌∷◌ _ _) = false

-- a full stop with something behind it
unfoldable pub has_inner_dot : String → Bool
has_inner_dot String.[] = false
has_inner_dot (String.◌∷◌ c s) = (code c == b'.' && not (is_empty s)) || has_inner_dot s

unfoldable pub is_domain : String → Bool
unfolding all_plain has_inner_dot is_plain
is_domain String.[] = false
is_domain (String.◌∷◌ c s) = is_plain (code c) && all_plain s && has_inner_dot s

unfoldable pub is_email_from : Bool → String → Bool
unfolding is_domain is_plain
is_email_from started String.[] = false
is_email_from started (String.◌∷◌ c s) =
    let rest = is_email_from true s in
    if code c == b'@' then started && is_domain s else is_plain (code c) && rest

-- `/^[^\s@]+@[^\s@]+\.[^\s@]+$/.test(email) && email.length <= 254`
unfoldable pub is_valid_email : String → Bool
unfolding is_email_from utf16_length
is_valid_email email = is_email_from false email && leb (utf16_length email) 254

unfoldable pub is_valid_name : String → Bool
unfolding utf16_length
is_valid_name name = leb 2 (utf16_length name) && leb (utf16_length name) 80

-- `[1, 2, 3].includes(roles)`; `none` is a `Number(…)` that is no natural number.
unfoldable pub valid_roles : Option ℕ → Option ℕ
valid_roles none = none
valid_roles (some r) = if leb 1 r && leb r 3 then some r else none
