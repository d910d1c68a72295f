-- ===== src/Routes/Dispatch.antt =====
-- No two routes take one request, so the order of the server's tests does not matter.
use creator_first_platform.Base.{
  ◌≡◌, refl, String, Bool, true, false, some, List, [], ◌∷◌, ◌⊎◌, ◌&&◌, ◌||◌, str_eq, arith, inl,
  inr, eq_iff, Option-cases, Bool-cases, subst, sym,
}
use creator_first_platform.Routes.Patterns.{Part, literal, token, accepts, match_path, overlap}
use creator_first_platform.Routes.Table.{
  Method, Route, same_method, get, post, delete, other_method, routes, try_route, find_route,
}

abbrev pub takes : Part → String → Bool
takes (literal x) s = str_eq x s
takes (token c) s = accepts c s

pub tail_lem :
    (x : Part) (p : List Part) (s : String) (path a : List String)
    → match_path (x ∷ p) (s ∷ path) ≡ some a
    → (takes x s ≡ true) × (b : List String) × (match_path p path ≡ some b)
unfolding match_path
tail_lem (literal x) p s path a m = (ground arith, a, ground arith)
tail_lem (token c) p s path a m = elim (Option-cases (match_path p path)) [
  | inl missing ↦ absurd (ground arith)
  | inr (b, rest) ↦ (ground arith, b, rest)
]

-- Two parts that take one text overlap.
both_take :
    (x y : Part) (p q : List Part) (s : String)
    → takes x s ≡ true
    → takes y s ≡ true
    → overlap p q ≡ true
    → overlap (x ∷ p) (y ∷ q) ≡ true
unfolding overlap
both_take (literal x) (literal y) p q s a b h = ground (arith, eq_iff x s, eq_iff y s, eq_iff x y)
both_take (literal x) (token d) p q s a b h =
    let same : s ≡ x = ground (arith, eq_iff x s) in
    let taken : accepts d x ≡ true = subst (λ t. accepts d t ≡ true) same b in ground arith
both_take (token c) (literal y) p q s a b h =
    let same : s ≡ y = ground (arith, eq_iff y s) in
    let taken : accepts c y ≡ true = subst (λ t. accepts c t ≡ true) same a in ground arith
both_take (token c) (token d) p q s a b h = h

-- Two patterns that match one path overlap.
overlap_lem :
    (p q : List Part) (path a b : List String)
    → match_path p path ≡ some a
    → match_path q path ≡ some b
    → overlap p q ≡ true
unfolding match_path overlap
overlap_lem [] [] path a b m n = refl
overlap_lem [] (y ∷ q) [] a b m n = absurd (ground arith)
overlap_lem [] (y ∷ q) (s ∷ path) a b m n = absurd (ground arith)
overlap_lem (x ∷ p) q [] a b m n = absurd (ground arith)
overlap_lem (x ∷ p) [] (s ∷ path) a b m n = absurd (ground arith)
overlap_lem (x ∷ p) (y ∷ q) (s ∷ path) a b m n =
    let (taken, a', rest) = tail_lem x p s path a m in
    let (taken', b', rest') = tail_lem y q s path b n in
    both_take x y p q s taken taken' (overlap_lem p q path a' b' rest rest')

same_method_lem :
    (a b m : Method) → same_method a m ≡ true → same_method b m ≡ true → same_method a b ≡ true
same_method_lem get get get h k = refl
same_method_lem post post post h k = refl
same_method_lem delete delete delete h k = refl
same_method_lem other_method other_method other_method h k = refl
same_method_lem _ _ _ h k = absurd (ground arith)

-- Whether two routes may take one request, and whether no two of a table may
abbrev may_clash : Route → Route → Bool
may_clash r q = same_method r.method q.method && overlap r.pattern q.pattern

unfoldable clashes_with : Route → List Route → Bool
clashes_with r [] = false
clashes_with r (q ∷ qs) = let rest = clashes_with r qs in may_clash r q || rest

unfoldable has_clash : List Route → Bool
has_clash [] = false
has_clash (r ∷ rs) = let rest = has_clash rs in clashes_with r rs || rest

unfoldable pub IsIn : Route → List Route → Type 0
IsIn r [] = ⊥
IsIn r (q ∷ qs) = (q ≡ r) ⊎ IsIn r qs

pub try_lem :
    (r x : Route) (m : Method) (path a : List String)
    → try_route r m path ≡ some (x, a)
    → (same_method r.method m ≡ true) × (match_path r.pattern path ≡ some a)
try_lem r x m path a h = elim (Bool-cases (same_method r.method m)) [
  | inr other ↦ absurd (ground arith)
  | inl same ↦ elim (Option-cases (match_path r.pattern path)) [
    | inl missing ↦ absurd (ground arith)
    | inr (b, fits) ↦ (same, ground arith)
  ]
]

-- The answer of a route names it.
pub try_own :
    (r x : Route) (m : Method) (path a : List String) → try_route r m path ≡ some (x, a) → r ≡ x
try_own r x m path a h = elim (Bool-cases (same_method r.method m)) [
  | inr other ↦ absurd (ground arith)
  | inl same ↦ elim (Option-cases (match_path r.pattern path)) [
    | inl missing ↦ absurd (ground arith)
    | inr (b, fits) ↦ ground arith
  ]
]

clash_lem :
    (r q : Route) (m : Method) (path a b : List String)
    → try_route r m path ≡ some (r, a)
    → try_route q m path ≡ some (q, b)
    → may_clash r q ≡ true
clash_lem r q m path a b h k =
    let (taken, fits) = try_lem r r m path a h in
    let (taken', fits') = try_lem q q m path b k in
    ground (
      arith,
      same_method_lem r.method q.method m taken taken',
      overlap_lem r.pattern q.pattern path a b fits fits',
    )

clashes-IsIn :
    (r q : Route) (rs : List Route) → IsIn q rs → may_clash r q ≡ true → clashes_with r rs ≡ true
unfolding IsIn clashes_with
clashes-IsIn r q [] i h = absurd i
clashes-IsIn r q (x ∷ rs) (inl same) h =
    let own : may_clash r x ≡ true = subst (λ y. may_clash r y ≡ true) (sym same) h in ground arith
clashes-IsIn r q (x ∷ rs) (inr rest) h = ground (arith, clashes-IsIn r q rs rest h)

-- In a table without clashes, the route that takes a request is found.
find_lem :
    (q : Route) (rs : List Route) (m : Method) (path b : List String)
    → has_clash rs ≡ false
    → IsIn q rs
    → try_route q m path ≡ some (q, b)
    → find_route rs m path ≡ some (q, b)
unfolding IsIn has_clash find_route
find_lem q [] m path b free i k = absurd i
find_lem q (x ∷ rs) m path b free (inl same) k =
    let own : try_route x m path ≡ some (q, b) =
      subst (λ y. try_route y m path ≡ some (q, b)) (sym same) k in
    rw own refl
find_lem q (x ∷ rs) m path b free (inr rest) k =
    let behind = find_lem q rs m path b (ground arith) rest k in
    elim (Option-cases (try_route x m path)) [
      | inl missing ↦ rw missing behind
      | inr ((y, a), taken) ↦
          let own : x ≡ y = try_own x y m path a taken in
          let taken' : try_route x m path ≡ some (x, a) =
            subst (λ z. try_route x m path ≡ some (z, a)) (sym own) taken in
          let clash = clashes-IsIn x q rs rest (clash_lem x q m path a b taken' k) in
          absurd (ground arith)
    ]

routes_free : has_clash routes ≡ false
unfolding has_clash clashes_with overlap accepts
routes_free = refl

-- A route of the table whose method is the one of a request, and whose pattern matches its path,
-- is the route that the table finds, with the texts that the pattern captures, wherever it stands
-- in the table.
pub find_any_order :
    (r : Route) (m : Method) (path tokens : List String)
    → IsIn r routes
    → same_method r.method m ≡ true
    → match_path r.pattern path ≡ some tokens
    → find_route routes m path ≡ some (r, tokens)
find_any_order r m path tokens i same fits =
    let taken : try_route r m path ≡ some (r, tokens) = rw (same, fits) refl in
    find_lem r routes m path tokens routes_free i taken
