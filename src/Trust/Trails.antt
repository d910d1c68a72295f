-- ===== src/Trust/Trails.antt =====
-- The audit events of a binding as a path of an abstract machine, and what `#transition` does to it.
pub mod Begins
pub mod Handlers
pub mod Passkeys
pub mod Wallets
use creator_first_platform.Base.{
  ℕ, ◌≡◌, refl, Bool, true, false, Option, none, some, List, [], ◌∷◌, ◌++◌, ◌==◌, arith, inl, inr,
  Option-cases, Bool-cases, if◌then◌else◌, ◌&&◌, subst,
}
use creator_first_platform.Base.Table.{
  select, update, insert, count-select, select-insert, select-insert_ne,
}
use mathlib.Core.Option.{map as map_option}
use creator_first_platform.Base.Table.Keyed.{select-update_each}
use creator_first_platform.Base.Exec.{ok, err, Result-cases}
use creator_first_platform.Account.{Account}
use creator_first_platform.Trust.Store.{
  BindingState, created, jpki_asserted, passkey_registered, wallet_bound, active, same_state,
  Binding, AuditEvent, BindingUpdate, has_binding_id, set_binding, update_trust_binding,
  breaks_active_index, record_trust_audit_event, create_trust_binding,
}
use creator_first_platform.Trust.Service.{
  Transaction, Trust, Detail, Drawn, has_transaction_id, transition, new_transaction, new_row,
  created_event, begin_checked,
}

-- The path to a state: each step is one of the only ways on.
abbrev pub path_to : Option BindingState → List BindingState
path_to none = []
path_to (some created) = created ∷ []
path_to (some jpki_asserted) = created ∷ jpki_asserted ∷ []
path_to (some passkey_registered) = created ∷ jpki_asserted ∷ passkey_registered ∷ []
path_to (some wallet_bound) = created ∷ jpki_asserted ∷ passkey_registered ∷ wallet_bound ∷ []
path_to (some active) = created ∷ jpki_asserted ∷ passkey_registered ∷ wallet_bound ∷ active ∷ []

-- The events of a binding, in their order
unfoldable pub trail : ℕ → List AuditEvent → List BindingState
trail k [] = []
trail k (e ∷ es) = let rest = trail k es in if e.binding_id == k then e.event_type ∷ rest else rest

abbrev pub row_state : Option Binding → Option BindingState
row_state none = none
row_state (some r) = some r.state

abbrev pub object_state : Option Transaction → Option BindingState
object_state none = none
object_state (some t) = some t.state

-- What the memory may say of a binding whose row has a state
abbrev pub agrees : Option BindingState → Option BindingState → Bool
agrees none s = true
agrees (some a) none = false
-- the second write of `verifyWallet` was stopped by the index
agrees (some active) (some wallet_bound) = true
agrees (some a) (some b) = same_state a b

pub trail-insert :
    (k : ℕ) (e : AuditEvent) (es : List AuditEvent)
    → trail k (insert e es)
      ≡ (if e.binding_id == k then trail k es ++ e.event_type ∷ [] else trail k es)
unfolding trail
trail-insert k e [] = ground arith
trail-insert k e (x ∷ es) = ground (arith, trail-insert k e es)

-- The audit events of a binding are the path to the state of its row, and the memory agrees.
abbrev pub IsTracedAt : ℕ → Trust → Type 0
IsTracedAt k s =
    (trail k s.store.audit_events
      ≡ path_to (row_state (select (has_binding_id k) s.store.bindings)))
    × (agrees (object_state (select (has_transaction_id k) s.transactions))
          (row_state (select (has_binding_id k) s.store.bindings))
        ≡ true)

unfoldable pub IsTraced : Trust → Type 0
IsTraced s = (k : ℕ) → IsTracedAt k s

abbrev pub is_next : BindingState → BindingState → Bool
is_next created jpki_asserted = true
is_next jpki_asserted passkey_registered = true
is_next passkey_registered wallet_bound = true
is_next wallet_bound active = true
is_next _ _ = false

-- Writes to the objects that leave their states alone
pub quiet_object :
    (f : Transaction → Transaction)
    → ((t : Transaction) → (f t).binding_id ≡ t.binding_id)
    → ((t : Transaction) → (f t).state ≡ t.state)
    → (k id : ℕ) (ts : List Transaction)
    → object_state (select (has_transaction_id k) (update (has_transaction_id id) f ts))
      ≡ object_state (select (has_transaction_id k) ts)
quiet_object f keep quiet k id ts = elim (Option-cases (select (has_transaction_id k) ts)) [
  | inl missing ↦
      ground (arith, select-update_each (λ (t : Transaction). t.binding_id) f keep k id ts)
  | inr (t, found) ↦
      ground (arith, quiet t, select-update_each (λ (t : Transaction). t.binding_id) f keep k id ts)
]

module _ (t : Transaction) (state : BindingState) (detail : Detail) (now : ℕ) (s : Trust) where
  abbrev pub value_of : BindingUpdate
  value_of = record {
    binding_id = t.binding_id;
    state = state;
    wallet_address = detail.wallet_address;
    passkey_credential_id = detail.passkey_credential_id;
    updated_at = now;
  }

  abbrev pub event_of : AuditEvent
  event_of = record {
    binding_id = t.binding_id;
    owner_id = t.owner_id;
    event_type = state;
    occurred_at = now;
  }

  abbrev pub moved : List Transaction
  moved =
      update (has_transaction_id t.binding_id) (λ t. record t { state = state; updated_at = now })
        s.transactions

  abbrev pub is_stopped : Bool
  is_stopped = same_state state active && breaks_active_index t.binding_id s.store.bindings

  -- The write to the row is made, or stopped by the index.
  pub transition_written :
      is_stopped ≡ false
      → transition t state detail now s ≡ (
        ok tt,
        record s {
          transactions = moved;
          store = record s.store {
            bindings = update (has_binding_id t.binding_id) (set_binding value_of) s.store.bindings;
            audit_events = insert event_of s.store.audit_events;
          };
        },
      )
  unfolding transition update_trust_binding record_trust_audit_event
  transition_written h = ground arith

  pub transition_stopped :
      is_stopped ≡ true → (transition t state detail now s).1 ≡ record s { transactions = moved }
  unfolding transition update_trust_binding record_trust_audit_event
  transition_stopped h = ground arith

abbrev moved_to : BindingState → Option BindingState → Option BindingState
moved_to state none = none
moved_to state (some old) = some state

moved_row :
    (value : BindingUpdate) (k id : ℕ) (rows : List Binding)
    → row_state (select (has_binding_id k) (update (has_binding_id id) (set_binding value) rows))
      ≡ (if k == id
          then moved_to value.state (row_state (select (has_binding_id k) rows))
          else row_state (select (has_binding_id k) rows))
moved_row value k id rows =
    let each =
      select-update_each (λ (r : Binding). r.binding_id) (set_binding value) (λ y. refl) k id
        rows in
    elim (Option-cases (select (has_binding_id k) rows)) [
      | inl missing ↦ ground arith
      | inr (r, found) ↦ ground arith
    ]

moved_object :
    (state : BindingState) (now k id : ℕ) (ts : List Transaction)
    → object_state (
        select
          (has_transaction_id k)
          (update (has_transaction_id id) (λ t. record t { state = state; updated_at = now }) ts))
      ≡ (if k == id
          then moved_to state (object_state (select (has_transaction_id k) ts))
          else object_state (select (has_transaction_id k) ts))
moved_object state now k id ts =
    let each =
      select-update_each (λ (r : Transaction). r.binding_id)
        (λ t. record t { state = state; updated_at = now }) (λ y. refl) k id ts in
    elim (Option-cases (select (has_transaction_id k) ts)) [
      | inl missing ↦ ground arith
      | inr (r, found) ↦ ground arith
    ]

-- The abstract machine makes a step, and the memory follows.
path_step :
    (old state : BindingState) (row : Option BindingState)
    → is_next old state ≡ true
    → agrees (some old) row ≡ true
    → (path_to row ++ state ∷ [] ≡ path_to (moved_to state row))
      × (agrees (some state) (moved_to state row) ≡ true)
path_step old state none n a = absurd (ground arith)
path_step created jpki_asserted (some created) n a = (refl, refl)
path_step jpki_asserted passkey_registered (some jpki_asserted) n a = (refl, refl)
path_step passkey_registered wallet_bound (some passkey_registered) n a = (refl, refl)
path_step wallet_bound active (some wallet_bound) n a = (refl, refl)
path_step _ _ (some _) n a = absurd (ground arith)

-- The memory is ahead of a row whose last write was stopped.
agrees_ahead :
    (old state : BindingState) (row : Option BindingState)
    → same_state state active ≡ true
    → is_next old state ≡ true
    → agrees (some old) row ≡ true
    → agrees (some state) row ≡ true
agrees_ahead wallet_bound active (some wallet_bound) e n a = refl
agrees_ahead _ _ _ e n a = absurd (ground arith)

-- A transition to the next state keeps what the events say.
pub transition-IsTraced :
    (t : Transaction) (old state : BindingState) (detail : Detail) (now : ℕ) (s : Trust)
    → object_state (select (has_transaction_id t.binding_id) s.transactions) ≡ some old
    → is_next old state ≡ true
    → IsTraced s
    → IsTraced (transition t state detail now s).1
unfolding IsTraced
transition-IsTraced t old state detail now s found ahead h k =
    let rows = moved_row (value_of t state detail now s) k t.binding_id s.store.bindings in
    let objects = moved_object state now k t.binding_id s.transactions in
    let step = path_step old state (row_state (select (has_binding_id k) s.store.bindings)) ahead in
    let here = h k in
    let events = trail-insert k (event_of t state detail now s) s.store.audit_events in
    elim (Bool-cases (is_stopped t state detail now s)) [
      | inl stopped ↦ rw (transition_stopped t state detail now s stopped) (
        here.0,
        ground (
          arith,
          agrees_ahead old state (row_state (select (has_binding_id k) s.store.bindings)),
          moved_object state now k t.binding_id s.transactions,
        ),
      )
      | inr free ↦ rw (transition_written t state detail now s free) (ground arith, ground arith)
    ]

pub transition-moved :
    (t : Transaction) (state : BindingState) (detail : Detail) (now : ℕ) (s : Trust)
    → (transition t state detail now s).1.transactions ≡ moved t state detail now s
transition-moved t state detail now s = elim (Bool-cases (is_stopped t state detail now s)) [
  | inl stopped ↦ rw (transition_stopped t state detail now s stopped) refl
  | inr free ↦ rw (transition_written t state detail now s free) refl
]

-- The object of a transition has its state.
pub transition_object :
    (t : Transaction) (old state : BindingState) (detail : Detail) (now : ℕ) (s : Trust)
    → object_state (select (has_transaction_id t.binding_id) s.transactions) ≡ some old
    → object_state
        (select (has_transaction_id t.binding_id) (transition t state detail now s).1.transactions)
      ≡ some state
transition_object t old state detail now s found =
    rw (transition-moved t state detail now s)
      (ground (arith, moved_object state now t.binding_id t.binding_id s.transactions))

-- A state with the same events, rows and states of objects
pub same-IsTraced :
    (s s' : Trust)
    → s'.store.audit_events ≡ s.store.audit_events
    → s'.store.bindings ≡ s.store.bindings
    → ((k : ℕ)
        → object_state (select (has_transaction_id k) s'.transactions)
          ≡ object_state (select (has_transaction_id k) s.transactions))
    → IsTraced s
    → IsTraced s'
unfolding IsTraced
same-IsTraced s s' events rows objects h k =
    let here = h k in let object = objects k in rw (events, rows, object) here
