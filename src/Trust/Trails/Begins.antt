-- ===== src/Trust/Trails/Begins.antt =====
-- A new binding starts its own path.
use creator_first_platform.Base.{
  ℕ, ◌≡◌, refl, none, ◌==◌, arith, inl, inr, Option-cases, Bool-cases, subst,
}
use creator_first_platform.Base.Table.{
  select, insert, count-select, select-insert, select-insert_ne,
}
use creator_first_platform.Account.{Account}
use creator_first_platform.Trust.Store.{
  has_binding_id, record_trust_audit_event, create_trust_binding,
}
use creator_first_platform.Trust.Service.{
  Trust, Drawn, has_transaction_id, new_transaction, new_row, created_event, begin_checked,
}
use creator_first_platform.Trust.Trails.{IsTraced, trail-insert}

-- What a new binding leaves
pub begin_lem :
    (ttl : ℕ) (a : Account) (drawn : Drawn) (now : ℕ) (s : Trust)
    → select (has_binding_id drawn.binding_id) s.store.bindings ≡ none
    → select (has_transaction_id drawn.binding_id) s.transactions ≡ none
    → let s' = (begin_checked ttl a drawn now s).1 in
      (s'.transactions ≡ insert (new_transaction a drawn ttl now) s.transactions)
      × (s'.store.bindings ≡ insert (new_row a drawn ttl now) s.store.bindings)
      × (s'.store.audit_events ≡ insert (created_event a drawn now) s.store.audit_events)
unfolding begin_checked create_trust_binding record_trust_audit_event
begin_lem ttl a drawn now s fresh unknown =
    let free = count-select (has_binding_id drawn.binding_id) s.store.bindings fresh in
    (ground arith, ground arith, ground arith)

-- A new binding, whose identifier no row has
pub begin-IsTraced :
    (ttl : ℕ) (a : Account) (drawn : Drawn) (now : ℕ) (s : Trust)
    → select (has_binding_id drawn.binding_id) s.store.bindings ≡ none
    → IsTraced s
    → IsTraced (begin_checked ttl a drawn now s).1
unfolding IsTraced
begin-IsTraced ttl a drawn now s fresh h k =
    let id = drawn.binding_id in
    let unknown : select (has_transaction_id id) s.transactions ≡ none =
      elim (Option-cases (select (has_transaction_id id) s.transactions)) [
        | inl missing ↦ missing
        | inr (t, found) ↦ absurd (ground (arith, (h id).1))
      ] in
    let (objects, rows, events) = begin_lem ttl a drawn now s fresh unknown in
    let own = h id in
    let here = h k in
    let longer = trail-insert k (created_event a drawn now) s.store.audit_events in
    let event = created_event a drawn now in
    let object = new_transaction a drawn ttl now in
    let row = new_row a drawn ttl now in
    elim (Bool-cases (id == k)) [
      | inl hit ↦
          let same : id ≡ k = ground arith in
          let no_row : select (has_binding_id k) s.store.bindings ≡ none =
            subst (λ n. select (has_binding_id n) s.store.bindings ≡ none) same fresh in
          let no_object : select (has_transaction_id k) s.transactions ≡ none =
            subst (λ n. select (has_transaction_id n) s.transactions ≡ none) same unknown in
          rw
            (
              objects,
              rows,
              events,
              select-insert (has_binding_id k) row s.store.bindings hit no_row,
              select-insert (has_transaction_id k) object s.transactions hit no_object,
            )
            (ground arith, refl)
      | inr miss ↦
          rw
            (
              objects,
              rows,
              events,
              select-insert_ne (has_binding_id k) row s.store.bindings miss,
              select-insert_ne (has_transaction_id k) object s.transactions miss,
            )
            (ground arith, here.1)
    ]
