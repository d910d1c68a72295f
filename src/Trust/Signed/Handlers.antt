-- ===== src/Trust/Signed/Handlers.antt =====
-- The handlers keep what the rows and the objects hold of passkeys and signatures.
use creator_first_platform.Base.{
  ℕ, ◌≡◌, refl, String, Option, none, some, ◌==◌, arith, inl, inr, subst, sym, Option-cases,
  Bool-cases,
}
use mathlib.Core.Option.{map as map_option}
use creator_first_platform.Base.Table.{select, select-insert, select-insert_ne, select-insert_old}
use creator_first_platform.Base.Table.Keyed.{select-update_each}
use creator_first_platform.Base.Exec.{Result-cases}
use creator_first_platform.Account.{Account}
use creator_first_platform.Trust.Store.{created, jpki_asserted, Binding, has_binding_id}
use creator_first_platform.Trust.Service.{
  BindingMessage, Transaction, Trust, Drawn, AssertForm, no_detail, has_transaction_id, transaction,
  csrf, set_transaction, new_transaction, new_row, begin_checked, assert_mock_jpki,
}
use creator_first_platform.Trust.Trails.Begins.{begin_lem}
use creator_first_platform.Trust.Trails.Handlers.{transaction_lem}
use creator_first_platform.Trust.Signed.{
  IsGoodRow, IsGoodObject, IsGoodAt, IsGood, IsSettled, Allows-before, transition-IsGood,
  transition-IsSettled,
}

module _ (recover : BindingMessage → String → Option ℕ) where
  quiet_at :
      (f : Transaction → Transaction) (o : Option Transaction) (r : Option Binding)
      → ((t : Transaction) (b : Binding)
          → o ≡ some t
          → IsGoodObject recover t b
          → IsGoodObject recover (f t) b)
      → IsGoodAt recover o r
      → IsGoodAt recover (map_option f o) r
  quiet_at f none r quiet h = h
  quiet_at f (some t) none quiet h = h
  quiet_at f (some t) (some b) quiet h = (h.0, quiet t b refl h.1)

  -- A write to an object that keeps what holds of it
  pub quiet-IsGood :
      (f : Transaction → Transaction)
      → ((t : Transaction) → (f t).binding_id ≡ t.binding_id)
      → (id : ℕ) (s : Trust)
      → ((t : Transaction) (b : Binding)
          → select (has_transaction_id id) s.transactions ≡ some t
          → IsGoodObject recover t b
          → IsGoodObject recover (f t) b)
      → IsGood recover s
      → IsGood recover (set_transaction id f s).1
  unfolding IsGood
  quiet-IsGood f keep id s quiet h k =
      let objects =
        select-update_each (λ (t : Transaction). t.binding_id) f keep k id s.transactions in
      elim (Bool-cases (k == id)) [
        | inr miss ↦ rw (objects, miss) (h k)
        | inl hit ↦
            let same : id ≡ k = ground arith in
            rw (objects, hit)
              (quiet_at f (select (has_transaction_id k) s.transactions)
                (select (has_binding_id k) s.store.bindings)
                (λ t b found good.
                  quiet t b
                    (subst (λ n. select (has_transaction_id n) s.transactions ≡ some t) (sym same)
                      found)
                    good)
                (h k))
      ]

  no_object :
      (s : Trust) (id : ℕ)
      → select (has_binding_id id) s.store.bindings ≡ none
      → IsGood recover s
      → select (has_transaction_id id) s.transactions ≡ none
  unfolding IsGood
  no_object s id fresh h = elim (Option-cases (select (has_transaction_id id) s.transactions)) [
    | inl missing ↦ missing
    | inr (t, found) ↦ absurd (
        subst (IsGoodAt recover (some t)) fresh (
          subst (λ o. IsGoodAt recover o (select (has_binding_id id) s.store.bindings)) found
            (h id)))
  ]

  pub IsSettled-object :
      (f : Transaction → Transaction) (id k commitment : ℕ) (s : Trust)
      → IsSettled k commitment s
      → IsSettled k commitment (set_transaction id f s).1
  unfolding IsSettled
  IsSettled-object f id k commitment s h = h

  pub begin-IsGood :
      (ttl : ℕ) (a : Account) (drawn : Drawn) (now : ℕ) (s : Trust)
      → select (has_binding_id drawn.binding_id) s.store.bindings ≡ none
      → IsGood recover s
      → IsGood recover (begin_checked ttl a drawn now s).1
  unfolding IsGood IsGoodRow IsGoodObject
  begin-IsGood ttl a drawn now s fresh h k =
      let id = drawn.binding_id in
      let unknown = no_object s id fresh h in
      let (objects, rows, events) = begin_lem ttl a drawn now s fresh unknown in
      let object = new_transaction a drawn ttl now in
      let row = new_row a drawn ttl now in
      elim (Bool-cases (id == k)) [
        | inr miss ↦
            rw
              (
                objects,
                rows,
                select-insert_ne (has_binding_id k) row s.store.bindings miss,
                select-insert_ne (has_transaction_id k) object s.transactions miss,
              )
              (h k)
        | inl hit ↦
            let same : id ≡ k = ground arith in
            let no_row : select (has_binding_id k) s.store.bindings ≡ none =
              subst (λ n. select (has_binding_id n) s.store.bindings ≡ none) same fresh in
            let no_object : select (has_transaction_id k) s.transactions ≡ none =
              subst (λ n. select (has_transaction_id n) s.transactions ≡ none) same unknown in
            rw
              (
                objects,
                rows,
                select-insert (has_binding_id k) row s.store.bindings hit no_row,
                select-insert (has_transaction_id k) object s.transactions hit no_object,
              )
              (
                (
                  λ n. absurd (ground arith),
                  λ n. absurd (ground arith),
                  λ w e. absurd (ground arith),
                ),
                (refl, λ n. absurd (ground arith), λ i e. absurd (ground arith)),
              )
      ]

  pub begin-IsSettled :
      (ttl : ℕ) (a : Account) (drawn : Drawn) (now k commitment : ℕ) (s : Trust)
      → select (has_binding_id drawn.binding_id) s.store.bindings ≡ none
      → IsGood recover s
      → IsSettled k commitment s
      → IsSettled k commitment (begin_checked ttl a drawn now s).1
  unfolding IsSettled
  begin-IsSettled ttl a drawn now k commitment s fresh h settles =
      let (objects, rows, events) =
        begin_lem ttl a drawn now s fresh (no_object s drawn.binding_id fresh h) in
      elim (Option-cases (select (has_binding_id k) s.store.bindings)) [
        | inl missing ↦ absurd (ground arith)
        | inr (r, found) ↦
            rw
              (
                rows,
                select-insert_old (has_binding_id k) (new_row a drawn ttl now) s.store.bindings r
                    found,
              )
              (ground arith)
      ]

  pub assert-IsGood :
      (account id : ℕ) (body : AssertForm) (now : ℕ) (s : Trust)
      → IsGood recover s
      → IsGood recover (assert_mock_jpki account id body now s).1
  unfolding assert_mock_jpki csrf IsGoodObject
  assert-IsGood account id body now s h =
      let same = (transaction_lem account id created now s).0 in
      elim (Result-cases (transaction account id created now s).0) [
        | inr (f, r) ↦ ground arith
        | inl (t, r) ↦
            let quiet =
              quiet-IsGood (λ t. record t { jpki_challenge = none }) (λ y. refl) t.binding_id s
                (λ t b found good. good) h in
            let kept =
              transition-IsGood recover t jpki_asserted no_detail now
                (set_transaction t.binding_id (λ t. record t { jpki_challenge = none }) s).1
                (Allows-before recover jpki_asserted _ refl) quiet in
            ground arith
      ]

  pub assert-IsSettled :
      (account id : ℕ) (body : AssertForm) (now k commitment : ℕ) (s : Trust)
      → IsSettled k commitment s
      → IsSettled k commitment (assert_mock_jpki account id body now s).1
  unfolding assert_mock_jpki csrf
  assert-IsSettled account id body now k commitment s h =
      let same = (transaction_lem account id created now s).0 in
      elim (Result-cases (transaction account id created now s).0) [
        | inr (f, r) ↦ ground arith
        | inl (t, r) ↦
            let kept =
              transition-IsSettled t jpki_asserted no_detail now k commitment
                (set_transaction t.binding_id (λ t. record t { jpki_challenge = none }) s).1
                (IsSettled-object (λ t. record t { jpki_challenge = none }) t.binding_id k
                  commitment s h) in
            ground arith
      ]
