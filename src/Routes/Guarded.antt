-- ===== src/Routes/Guarded.antt =====
-- What lies below /v1/admin is for the administrator.
use creator_first_platform.Base.{
  ℕ, ◌≡◌, refl, String, Bool, true, false, Option, some, List, [], ◌∷◌, ◌&&◌, ◌||◌, not, arith, inl,
  inr, Option-cases, Bool-cases, subst, ◌∙◌,
}
use creator_first_platform.Base.Exec.{ok, Result-cases}
use creator_first_platform.Participants.Forms.{TextMethods}
use creator_first_platform.Participants.Rows.{Database}
use creator_first_platform.Participants.Invitations.Service.{require_administrator}
use creator_first_platform.Routes.Patterns.{Part, accepts, match_path}
use creator_first_platform.Routes.Table.{
  Method, Route, routes, try_route, find_route, take_request, is_allowed_origin,
}
use creator_first_platform.Routes.Dispatch.{takes, tail_lem, try_lem, try_own}

-- Whether a pattern can match a path below /v1/admin
unfoldable is_below_admin : List Part → Bool
is_below_admin (a ∷ b ∷ c ∷ p) = takes a "" && takes b "v1" && takes c "admin"
is_below_admin _ = false

unfoldable all_guarded : List Route → Bool
all_guarded [] = true
all_guarded (r ∷ rs) =
    let rest = all_guarded rs in (not (is_below_admin r.pattern) || r.admin) && rest

routes_guarded : all_guarded routes ≡ true
unfolding all_guarded is_below_admin accepts
routes_guarded = refl

below_lem :
    (p : List Part) (path a : List String)
    → match_path p ("" ∷ "v1" ∷ "admin" ∷ path) ≡ some a
    → is_below_admin p ≡ true
unfolding is_below_admin match_path
below_lem [] path a m = absurd (ground arith)
below_lem (x ∷ []) path a m =
    let (taken, b, rest) = tail_lem x [] "" ("v1" ∷ "admin" ∷ path) a m in absurd (ground arith)
below_lem (x ∷ y ∷ []) path a m =
    let (taken, b, rest) = tail_lem x (y ∷ []) "" ("v1" ∷ "admin" ∷ path) a m in
    let (taken', b', rest') = tail_lem y [] "v1" ("admin" ∷ path) b rest in absurd (ground arith)
below_lem (x ∷ y ∷ z ∷ p) path a m =
    let (first_taken, b, rest) = tail_lem x (y ∷ z ∷ p) "" ("v1" ∷ "admin" ∷ path) a m in
    let (second_taken, c, rest') = tail_lem y (z ∷ p) "v1" ("admin" ∷ path) b rest in
    let (third_taken, d, rest'') = tail_lem z p "admin" path c rest' in ground arith

found_guarded :
    (rs : List Route) (m : Method) (path : List String) (r : Route) (tokens : List String)
    → all_guarded rs ≡ true
    → find_route rs m ("" ∷ "v1" ∷ "admin" ∷ path) ≡ some (r, tokens)
    → r.admin ≡ true
unfolding all_guarded find_route
found_guarded [] m path r tokens h e = absurd (ground arith)
found_guarded (x ∷ rs) m path r tokens h e =
    elim (Option-cases (try_route x m ("" ∷ "v1" ∷ "admin" ∷ path))) [
      | inl missing ↦
          let behind : find_route rs m ("" ∷ "v1" ∷ "admin" ∷ path) ≡ some (r, tokens) =
            ground arith in
          found_guarded rs m path r tokens (ground arith) behind
      | inr ((y, a), taken) ↦
          let (same, fits) = try_lem x y m ("" ∷ "v1" ∷ "admin" ∷ path) a taken in
          let below = below_lem x.pattern path a fits in
          let own : x ≡ y = try_own x y m ("" ∷ "v1" ∷ "admin" ∷ path) a taken in
          let found : y ≡ r = ground arith in
          let guarded : x.admin ≡ true = ground arith in
          subst (λ z. z.admin ≡ true) (own ∙ found) guarded
    ]

module _ (digest : String → ℕ) (methods : TextMethods) where
  -- A request with a path below /v1/admin that comes to a branch has no origin or the allowed one,
  -- and `requireAdministrator` has accepted its `Authorization` header.
  pub admin_guarded :
      (allowed_origin admin_token : String) (origin authorization : Option String) (m : Method)
      (path : List String) (s : Database) (r : Route) (tokens : List String)
      → (take_request digest methods allowed_origin admin_token origin authorization m
          ("" ∷ "v1" ∷ "admin" ∷ path)
          s).0
        ≡ ok (r, tokens)
      → (is_allowed_origin allowed_origin origin ≡ true)
        × ((require_administrator digest methods admin_token authorization s).0 ≡ ok tt)
  unfolding take_request
  admin_guarded allowed_origin admin_token origin authorization m path s r tokens h =
      elim (Bool-cases (is_allowed_origin allowed_origin origin)) [
        | inr denied ↦ absurd (ground arith)
        | inl allowed ↦ elim (Option-cases (find_route routes m ("" ∷ "v1" ∷ "admin" ∷ path))) [
          | inl missing ↦ absurd (ground arith)
          | inr ((q, b), found) ↦
              let guarded = found_guarded routes m path q b routes_guarded found in
              elim (Result-cases
                (require_administrator digest methods admin_token authorization s).0) [
                  | inl (u, e) ↦ (allowed, e)
                  | inr (f, e) ↦ absurd (ground arith)
                ]
        ]
      ]
