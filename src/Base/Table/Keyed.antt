-- ===== src/Base/Table/Keyed.antt =====
-- Tables with a primary key that is a number.
use Prim.Native.Nat.{ℕ, ◌+◌, ◌≤◌}
use mathlib.Core.Bool.{Bool, true}
use mathlib.Core.Logic.{inl, inr}
use mathlib.Core.Path.{◌≡◌, refl, subst}
use mathlib.Core.List.{List, [], ◌∷◌}
use mathlib.Core.Option.{map, none, some}
use native.Mathlib.Omega.{arith}
use creator_first_platform.Base.Tests.{Bool-cases, ◌==◌, if◌then◌else◌}
use creator_first_platform.Base.Table.{select, update, count, insert, select-insert_ne}

-- A table with a number as its primary key.
module _ {ℓ} {A : Type ℓ} (key : A → ℕ) where
  abbrev pub has_key : ℕ → A → Bool
  has_key k x = key x == k

  -- no two rows have one key
  abbrev pub IsKeyed : List A → Type ℓ
  IsKeyed [] = Unit
  IsKeyed (x ∷ xs) = (select (has_key (key x)) xs ≡ none) × IsKeyed xs

  pub insert-IsKeyed :
      (x : A) (xs : List A)
      → IsKeyed xs
      → select (has_key (key x)) xs ≡ none
      → IsKeyed (insert x xs)
  unfolding select
  insert-IsKeyed x [] k h = (refl, tt)
  insert-IsKeyed x (y ∷ xs) k h =
      ground (arith, insert-IsKeyed x xs k.1, select-insert_ne (has_key (key y)) x xs)

  module _ (q : A → Bool) (f : A → A) (keep : (y : A) → key (f y) ≡ key y) where
    pub select-update_missing :
        (k : ℕ) (xs : List A)
        → select (has_key k) xs ≡ none
        → select (has_key k) (update q f xs) ≡ none
    unfolding select update
    select-update_missing k [] h = refl
    select-update_missing k (y ∷ xs) h = ground (arith, keep y, select-update_missing k xs)

    pub update-IsKeyed : (xs : List A) → IsKeyed xs → IsKeyed (update q f xs)
    unfolding select update
    update-IsKeyed [] h = tt
    update-IsKeyed (y ∷ xs) h =
        ground (arith, keep y, select-update_missing (key y) xs h.0, update-IsKeyed xs h.1)

    -- The row with a key, after an update that leaves the keys alone.
    pub select-update_key :
        (k : ℕ) (x : A) (xs : List A)
        → select (has_key k) xs ≡ some x
        → select (has_key k) (update q f xs) ≡ some (if q x then f x else x)
    unfolding select update
    select-update_key k x [] h = cc
    select-update_key k x (y ∷ xs) h = ground (arith, keep y, select-update_key k x xs)

  -- An update of a key that no row has changes nothing.
  pub update_missing :
      (f : A → A) (k : ℕ) (xs : List A)
      → select (has_key k) xs ≡ none
      → update (has_key k) f xs ≡ xs
  unfolding select update
  update_missing f k [] h = refl
  update_missing f k (y ∷ xs) h = ground (arith, update_missing f k xs)

  -- What the update of one row does to a count.
  pub count-update_key :
      (p : A → Bool) (f : A → A) (k : ℕ) (r : A) (xs : List A)
      → IsKeyed xs
      → select (has_key k) xs ≡ some r
      → count p (update (has_key k) f xs) + (if p r then 1 else 0)
        ≡ count p xs + (if p (f r) then 1 else 0)
  unfolding select update count
  count-update_key p f k r [] u h = cc
  count-update_key p f k r (y ∷ xs) u h =
      ground (arith, count-update_key p f k r xs u.1, update_missing f (key y) xs)

  pub count-update_key-le :
      (p : A → Bool) (f : A → A) (k : ℕ) (r : A) (xs : List A)
      → IsKeyed xs
      → select (has_key k) xs ≡ some r
      → (p (f r) ≡ true → p r ≡ true)
      → count p (update (has_key k) f xs) ≤ count p xs
  count-update_key-le p f k r xs u h keep = ground (arith, count-update_key p f k r xs u h)

  module _ (p : A → Bool) (k : ℕ) (within : (y : A) → p y ≡ true → key y ≡ k) where
    count_missing : (xs : List A) → select (has_key k) xs ≡ none → count p xs ≡ 0
    unfolding select count
    count_missing [] h = refl
    count_missing (y ∷ xs) h = ground (arith, within y, count_missing xs)

    -- A condition that fixes the key holds of one row at most.
    pub count_of_key :
        (r : A) (xs : List A)
        → IsKeyed xs
        → select (has_key k) xs ≡ some r
        → count p xs ≡ (if p r then 1 else 0)
    unfolding select count
    count_of_key r [] u h = cc
    count_of_key r (y ∷ xs) u h = ground (arith, within y, count_of_key r xs u.1, count_missing xs)

  -- A row that was selected by another condition is the row of its key.
  pub select_of_key :
      (p : A → Bool) (r : A) (xs : List A)
      → IsKeyed xs
      → select p xs ≡ some r
      → select (has_key (key r)) xs ≡ some r
  unfolding select
  select_of_key p r [] u h = cc
  select_of_key p r (y ∷ xs) u h = elim (Bool-cases (p y)) [
    | inl hit ↦ ground arith
    | inr miss ↦
        let rest : select (has_key (key r)) xs ≡ some r = select_of_key p r xs u.1 (ground arith) in
        elim (Bool-cases (key y == key r)) [
          | inl same ↦
              let e : key y ≡ key r = ground arith in
              let gone : select (has_key (key r)) xs ≡ none =
                subst (λ k. select (has_key k) xs ≡ none) e u.0 in
              absurd (ground arith)
          | inr other ↦ ground arith
        ]
  ]

  -- What the update of one row does to the row of each key.
  pub select-update_each :
      (f : A → A)
      → ((y : A) → key (f y) ≡ key y)
      → (k id : ℕ) (xs : List A)
      → select (has_key k) (update (has_key id) f xs)
        ≡ (if k == id then map f (select (has_key k) xs) else select (has_key k) xs)
  unfolding select update
  select-update_each f keep k id [] = ground arith
  select-update_each f keep k id (y ∷ xs) =
      ground (arith, keep y, select-update_each f keep k id xs)
