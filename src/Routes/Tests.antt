-- ===== src/Routes/Tests.antt =====
-- The theorems on routes at concrete inputs.
use creator_first_platform.Base.{
  ℕ, ◌≡◌, refl, String, true, false, none, some, List, [], ◌∷◌, inl, inr,
}
use creator_first_platform.Base.Exec.{ok}
use creator_first_platform.Participants.Forms.{TextMethods}
use creator_first_platform.Participants.Rows.{Database}
use creator_first_platform.Participants.Invitations.Service.{
  require_administrator, safe_token_equal,
}
use creator_first_platform.Routes.Patterns.{
  literal, token, link_token, accepts, match_path, all_words, length,
}
use creator_first_platform.Routes.Table.{
  Route, get, post, post_application_verify, get_admin_invitations, routes, find_route,
  take_request, is_allowed_origin,
}
use creator_first_platform.Routes.Dispatch.{IsIn, find_any_order}
use creator_first_platform.Routes.Guarded.{admin_guarded}

abbrev verify : Route
verify = record {
  method = post;
  pattern =
      literal ""
      ∷ literal "v1"
      ∷ literal "participant-applications"
      ∷ literal "verify"
      ∷ token link_token
      ∷ [];
  branch = post_application_verify;
  admin = false;
}

abbrev link : String
link = "abcdefgh-bcdefgh_bcdefghabcdefgh"

abbrev path : List String
path = "" ∷ "v1" ∷ "participant-applications" ∷ "verify" ∷ link ∷ []

verify-IsIn : IsIn verify routes
unfolding IsIn
verify-IsIn = inr (inr (inr (inr (inr (inr (inr (inr (inr (inl refl)))))))))

find_any_order_example : find_route routes post path ≡ some (verify, link ∷ [])
unfolding match_path accepts all_words length
find_any_order_example = find_any_order verify post path (link ∷ []) verify-IsIn refl refl

abbrev digest : String → ℕ
digest text = 0

abbrev methods : TextMethods
methods = record { trim = λ s. s; to_lower_case = λ s. s; normalize_nfkc = λ s. s }

abbrev database : Database
database = record {
  invitations = [];
  invitation_events = [];
  resend_requests = [];
  applications = [];
  application_events = [];
  enrollments = [];
  enrollment_events = [];
}

abbrev listed : Route
listed = record {
  method = get;
  pattern = literal "" ∷ literal "v1" ∷ literal "admin" ∷ literal "participant-invitations" ∷ [];
  branch = get_admin_invitations;
  admin = true;
}

admin_guarded_example :
    (is_allowed_origin "a" none ≡ true)
    × ((require_administrator digest methods "secret" (some "Bearer secret") database).0 ≡ ok tt)
unfolding take_request find_route match_path accepts all_words length require_administrator
    safe_token_equal
admin_guarded_example =
    admin_guarded digest methods "a" "secret" none (some "Bearer secret") get
      ("participant-invitations" ∷ []) database listed [] refl
