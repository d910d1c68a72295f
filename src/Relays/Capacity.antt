-- ===== src/Relays/Capacity.antt =====
-- How many operations the map of a relayer holds, and for how long it holds one.
use creator_first_platform.Base.{
  ℕ, suc, ◌+◌, ◌≤◌, ◌<◌, ◌≡◌, refl, true, false, Option, none, some, List, [], ◌∷◌, arith, inl, inr,
  Bool-cases, leb, eq_iff, subst, sym, ap, if◌then◌else◌,
}
use creator_first_platform.Base.Table.{select, insert}
use creator_first_platform.Base.Exec.{ok}
use creator_first_platform.Relays.Operations.{
  OperationKey, Operation, has_operation_key, same_key, length, without_first, delete_operation,
  keep_operation, MapStep, keeps, deletes, map_step, map_run, prior_run, all_of_others, count_keeps,
}

pub length-insert {ℓ} : {A : Type ℓ} (x : A) (xs : List A) → length (insert x xs) ≡ suc (length xs)
unfolding length
length-insert x [] = refl
length-insert x (y ∷ xs) = ground (arith, length-insert x xs)

pub length-delete_operation :
    (k : OperationKey) (ops : List Operation) → length (delete_operation k ops) ≤ length ops
unfolding length delete_operation
length-delete_operation k [] = ground arith
length-delete_operation k (o ∷ ops) = ground (arith, length-delete_operation k ops)

length-without_first :
    (ops : List Operation) → 512 ≤ length ops → suc (length (without_first ops)) ≡ length ops
unfolding length
length-without_first [] h = absurd (ground arith)
length-without_first (o ∷ ops) h = refl

pub length-keep_operation :
    (o : Operation) (ops : List Operation) → length ops ≤ 512 → length (keep_operation o ops) ≤ 512
unfolding keep_operation
length-keep_operation o ops h = elim (Bool-cases (leb 512 (length ops))) [
  | inl full ↦
      ground (arith, length-insert o (without_first ops), length-without_first ops (ground arith))
  | inr room ↦ ground (arith, length-insert o ops)
]

-- How many operations came after the one of a key
unfoldable pub younger : OperationKey → List Operation → Option ℕ
younger k [] = none
younger k (o ∷ ops) =
    let rest = younger k ops in if has_operation_key k o then some (length ops) else rest

-- The operation is in the map under its key, and at most `n` others came after it.
unfoldable pub IsKept : Operation → ℕ → List Operation → Type 0
IsKept o n ops =
    (select (has_operation_key o.key) ops ≡ some o)
    × (m : ℕ) × (younger o.key ops ≡ some m)
    × (m ≤ n)

younger-insert :
    (k : OperationKey) (x : Operation) (m : ℕ) (ops : List Operation)
    → younger k ops ≡ some m
    → younger k (insert x ops) ≡ some (suc m)
unfolding younger
younger-insert k x m [] h = absurd (ground arith)
younger-insert k x m (o ∷ ops) h = ground (arith, younger-insert k x m ops, length-insert x ops)

select-keep :
    (k : OperationKey) (x o : Operation) (ops : List Operation)
    → select (has_operation_key k) ops ≡ some o
    → select (has_operation_key k) (insert x ops) ≡ some o
unfolding select
select-keep k x o [] h = absurd (ground arith)
select-keep k x o (y ∷ ops) h = ground (arith, select-keep k x o ops)

insert-IsKept :
    (o x : Operation) (n : ℕ) (ops : List Operation)
    → IsKept o n ops
    → IsKept o (suc n) (insert x ops)
unfolding IsKept
insert-IsKept o x n ops (found, m, behind, few) = (
  select-keep o.key x o ops found,
  suc m,
  younger-insert o.key x m ops behind,
  omega (arith, few),
)

-- The oldest operation of a map that is longer leaves the others.
without_first-IsKept :
    (o : Operation) (n : ℕ) (ops : List Operation)
    → suc n < length ops
    → IsKept o n ops
    → IsKept o n (without_first ops)
unfolding IsKept select younger length
without_first-IsKept o n [] long (found, m, behind, few) = absurd (ground arith)
without_first-IsKept o n (x ∷ ops) long (found, m, behind, few) =
    elim (Bool-cases (has_operation_key o.key x)) [
      | inl hit ↦ absurd (ground arith)
      | inr miss ↦ (ground arith, m, ground arith, few)
    ]

delete-IsKept :
    (o : Operation) (k : OperationKey) (n : ℕ) (ops : List Operation)
    → has_operation_key k o ≡ false
    → IsKept o n ops
    → IsKept o n (delete_operation k ops)
unfolding IsKept delete_operation select younger
delete-IsKept o k n [] other h = h
delete-IsKept o k n (x ∷ ops) other (found, m, behind, few) =
    elim (Bool-cases (has_operation_key o.key x)) [
      | inl own ↦
          let same : x ≡ o = ground arith in
          let kept : has_operation_key k x ≡ false =
            subst (λ y. has_operation_key k y ≡ false) (sym same) other in
          let shorter = length-delete_operation k ops in
          rw kept (rw own (ap some same, length (delete_operation k ops), refl, ground arith))
      | inr miss ↦
          let (found', m', behind', few') =
            delete-IsKept o k n ops other (ground arith, m, ground arith, few) in
          elim (Bool-cases (has_operation_key k x)) [
            | inl hit ↦ rw hit (found', m', behind', few')
            | inr kept ↦ rw kept (rw miss (found', m', behind', few'))
          ]
    ]

weaken-IsKept :
    (o : Operation) (n n' : ℕ) (ops : List Operation) → n ≤ n' → IsKept o n ops → IsKept o n' ops
unfolding IsKept
weaken-IsKept o n n' ops more (found, m, behind, few) = (found, m, behind, omega (arith, more, few))

keep-IsKept :
    (o p : Operation) (n : ℕ) (ops : List Operation)
    → n < 511
    → IsKept o n ops
    → IsKept o (suc n) (keep_operation p ops)
unfolding keep_operation
keep-IsKept o p n ops few h = elim (Bool-cases (leb 512 (length ops))) [
  | inl full ↦
      rw full
        (insert-IsKept o p n (without_first ops) (without_first-IsKept o n ops (ground arith) h))
  | inr room ↦ rw room (insert-IsKept o p n ops h)
]

run-IsKept :
    (o : Operation) (n : ℕ) (ops : List Operation) (es : List MapStep)
    → count_keeps es + n ≤ 511
    → all_of_others o es ≡ true
    → IsKept o n ops
    → IsKept o 511 (map_run ops es)
unfolding map_run map_step count_keeps all_of_others
run-IsKept o n ops [] few other h = weaken-IsKept o n 511 ops (ground arith) h
run-IsKept o n ops (keeps p ∷ es) few other h =
    run-IsKept o (suc n) (keep_operation p ops) es (ground arith) (ground arith)
      (keep-IsKept o p n ops (ground arith) h)
run-IsKept o n ops (deletes k ∷ es) few other h =
    run-IsKept o n (delete_operation k ops) es (ground arith) (ground arith)
      (delete-IsKept o k n ops (ground arith) h)

same_key_refl : (k : OperationKey) → same_key k k ≡ true
same_key_refl k = ground (arith, eq_iff k.idempotency_key k.idempotency_key)

select-without_first :
    (k : OperationKey) (ops : List Operation)
    → select (has_operation_key k) ops ≡ none
    → select (has_operation_key k) (without_first ops) ≡ none
unfolding select
select-without_first k [] h = h
select-without_first k (o ∷ ops) h = ground arith

last_lem :
    (o : Operation) (ops : List Operation)
    → select (has_operation_key o.key) ops ≡ none
    → (select (has_operation_key o.key) (insert o ops) ≡ some o)
      × (younger o.key (insert o ops) ≡ some 0)
unfolding select younger length
last_lem o [] h = let own = same_key_refl o.key in rw own (refl, refl)
last_lem o (x ∷ ops) h = ground (arith, last_lem o ops)

-- The new operation is the last one.
new-IsKept :
    (o : Operation) (ops : List Operation)
    → select (has_operation_key o.key) ops ≡ none
    → IsKept o 0 (keep_operation o ops)
unfolding keep_operation IsKept
new-IsKept o ops new = elim (Bool-cases (leb 512 (length ops))) [
  | inl full ↦
      let (found, behind) = last_lem o (without_first ops) (select-without_first o.key ops new) in
      rw full (found, 0, behind, omega arith)
  | inr room ↦ let (found, behind) = last_lem o ops new in rw room (found, 0, behind, omega arith)
]

-- An operation of a new key is the one that a relay with its key and its hash waits for, after any
-- changes of the map by other keys with at most 511 new operations among them.
pub joins_operation :
    (o : Operation) (ops : List Operation) (es : List MapStep)
    → select (has_operation_key o.key) ops ≡ none
    → all_of_others o es ≡ true
    → count_keeps es ≤ 511
    → let later = map_run (keep_operation o ops) es in
      prior_run o.key o.hash later ≡ (ok (some o.run_id), later)
unfolding IsKept prior_run
joins_operation o ops es new others few =
    let kept =
      run-IsKept o 0 (keep_operation o ops) es (ground arith) others (new-IsKept o ops new) in
    ground (arith, kept.0)

-- The lookup changes nothing.
pub prior_run_state :
    (key : OperationKey) (hash : ℕ) (ops : List Operation) → (prior_run key hash ops).1 ≡ ops
unfolding prior_run
prior_run_state key hash ops = ground arith
