-- ===== src/Base/Table.antt =====
-- A table of the SQLite database as the list of its rows, and the statements that the store runs.
pub mod Keyed
use Prim.Native.Nat.{ℕ, ◌+◌, ◌≤◌, ◌<◌}
use mathlib.Core.Bool.{Bool, true, false}
use mathlib.Core.Path.{◌≡◌, refl}
use mathlib.Core.List.{List, [], ◌∷◌, ◌++◌}
use mathlib.Core.Option.{Option, none, some}
use native.Mathlib.Omega.{arith}
use creator_first_platform.Base.Tests.{if◌then◌else◌}

module _ {ℓ} {A : Type ℓ} where
  -- `SELECT … WHERE p`, the first row of the answer
  unfoldable pub select : (A → Bool) → List A → Option A
  select p [] = none
  select p (x ∷ xs) = if p x then some x else select p xs

  -- `UPDATE … SET f WHERE p`
  unfoldable pub update : (A → Bool) → (A → A) → List A → List A
  update p f [] = []
  update p f (x ∷ xs) = (if p x then f x else x) ∷ update p f xs

  -- how many rows meet `p`, which is `changes` after an `UPDATE … WHERE p`
  unfoldable pub count : (A → Bool) → List A → ℕ
  count p [] = 0
  count p (x ∷ xs) = (if p x then 1 else 0) + count p xs

  -- `INSERT`: the new row comes last
  abbrev pub insert : A → List A → List A
  insert x xs = xs ++ x ∷ []

module _ {ℓ} {A : Type ℓ} (p : A → Bool) where
  -- A selected row meets the condition.
  pub select_holds : (x : A) (xs : List A) → select p xs ≡ some x → p x ≡ true
  unfolding select
  select_holds x [] h = cc
  select_holds x (y ∷ xs) h = ground (arith, select_holds x xs)

  pub count-insert :
      (x : A) (xs : List A) → count p (insert x xs) ≡ (if p x then 1 else 0) + count p xs
  unfolding count
  count-insert x [] = refl
  count-insert x (y ∷ xs) = omega (arith, count-insert x xs)

  pub count-select : (xs : List A) → select p xs ≡ none → count p xs ≡ 0
  unfolding count select
  count-select [] h = refl
  count-select (y ∷ xs) h = ground (arith, count-select xs)

  pub select-count : (x : A) (xs : List A) → select p xs ≡ some x → 0 < count p xs
  unfolding count select
  select-count x [] h = cc
  select-count x (y ∷ xs) h = ground (arith, select-count x xs)

  pub select-insert :
      (x : A) (xs : List A) → p x ≡ true → select p xs ≡ none → select p (insert x xs) ≡ some x
  unfolding select
  select-insert x [] h e = ground arith
  select-insert x (y ∷ xs) h e = ground (arith, select-insert x xs)

  pub select-insert_old :
      (x : A) (xs : List A) (y : A) → select p xs ≡ some y → select p (insert x xs) ≡ some y
  unfolding select
  select-insert_old x [] y h = cc
  select-insert_old x (z ∷ xs) y h = ground (arith, select-insert_old x xs y)

  pub select-insert_ne : (x : A) (xs : List A) → p x ≡ false → select p (insert x xs) ≡ select p xs
  unfolding select
  select-insert_ne x [] h = ground arith
  select-insert_ne x (y ∷ xs) h = ground (arith, select-insert_ne x xs)

pub count_mono {ℓ} :
    {A : Type ℓ} (p q : A → Bool) (xs : List A)
    → ((x : A) → p x ≡ true → q x ≡ true)
    → count p xs ≤ count q xs
unfolding count
count_mono p q [] h = omega arith
count_mono p q (x ∷ xs) h = ground (arith, h x, count_mono p q xs h)

-- An `UPDATE` that changes no row leaves the table as it is.
pub update_none {ℓ} :
    {A : Type ℓ} (p : A → Bool) (f : A → A) (xs : List A) → count p xs ≡ 0 → update p f xs ≡ xs
unfolding count update
update_none p f [] h = refl
update_none p f (x ∷ xs) h = ground (arith, update_none p f xs)

module _ {ℓ} {A : Type ℓ} (p q : A → Bool) (f : A → A) where
  -- An update after which no row newly meets `p` leaves at most as many rows that meet it.
  pub count-update-le :
      (xs : List A)
      → ((x : A) → q x ≡ true → p (f x) ≡ true → p x ≡ true)
      → count p (update q f xs) ≤ count p xs
  unfolding count update
  count-update-le [] keep = omega arith
  count-update-le (x ∷ xs) keep = ground (arith, keep x, count-update-le xs keep)

  -- An update that does not touch the condition updates the selected row in place.
  pub select-update :
      (xs : List A) (x : A)
      → ((y : A) → p (f y) ≡ p y)
      → select p xs ≡ some x
      → select p (update q f xs) ≡ some (if q x then f x else x)
  unfolding select update
  select-update [] x keep h = cc
  select-update (y ∷ xs) x keep h = ground (arith, keep y, select-update xs x keep)

  pub select-update-none :
      (xs : List A)
      → ((y : A) → p (f y) ≡ p y)
      → select p xs ≡ none
      → select p (update q f xs) ≡ none
  unfolding select update
  select-update-none [] keep h = refl
  select-update-none (y ∷ xs) keep h = ground (arith, keep y, select-update-none xs keep)
