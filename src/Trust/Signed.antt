-- ===== src/Trust/Signed.antt =====
-- What the rows, the objects and the handlers that wait hold of passkeys and signatures, also where
-- handlers interleave at their awaits.
pub mod Handlers
pub mod Awaits
pub mod Wallets
use creator_first_platform.Base.{
  ℕ, ◌≡◌, refl, String, Bool, true, false, Option, none, some, List, [], ◌∷◌, ◌==◌, arith, inl, inr,
  subst, sym, Option-cases, Bool-cases, if◌then◌else◌,
}
use mathlib.Core.Option.{map as map_option}
use creator_first_platform.Base.Table.{select, update, insert}
use creator_first_platform.Base.Table.Keyed.{select-update_each}
use creator_first_platform.Trust.Store.{
  BindingState, created, jpki_asserted, passkey_registered, wallet_bound, active, same_state,
  Binding, BindingUpdate, has_binding_id, set_binding, breaks_active_index, or_else,
}
use creator_first_platform.Trust.Service.{
  BindingMessage, WalletIntent, Transaction, Trust, Detail, no_detail, has_transaction_id,
  transition,
}
use creator_first_platform.Trust.Trails.{
  value_of, moved, is_stopped, transition_written, transition_stopped,
}

-- The states from PASSKEY_REGISTERED on, and from WALLET_BOUND on
abbrev pub has_passkey : BindingState → Bool
has_passkey created = false
has_passkey jpki_asserted = false
has_passkey _ = true

abbrev pub has_wallet : BindingState → Bool
has_wallet wallet_bound = true
has_wallet active = true
has_wallet _ = false

abbrev pub is_set {ℓ} : {A : Type ℓ} → Option A → Bool
is_set none = false
is_set (some a) = true

module _ (recover : BindingMessage → String → Option ℕ) where
  -- A wallet has signed the message that binds it to the account of a commitment.
  abbrev pub Signs : ℕ → ℕ → Type 0
  Signs w commitment =
      (m : BindingMessage) × (signature : String) × (recover m signature ≡ some w)
      × (m.wallet_address ≡ w)
      × (m.account_subject_commitment ≡ commitment)

  unfoldable pub IsGoodRow : Binding → Type 0
  IsGoodRow r =
      (has_passkey r.state ≡ true → is_set r.passkey_credential_id ≡ true)
      × (has_wallet r.state ≡ true → is_set r.wallet_address ≡ true)
      × ((w : ℕ) → r.wallet_address ≡ some w → Signs w r.account_subject_commitment)

  -- An intent names its wallet and the account of its transaction.
  abbrev pub IsGoodIntent : ℕ → WalletIntent → Type 0
  IsGoodIntent commitment i =
      (i.typed_data.wallet_address ≡ i.wallet_address)
      × (i.typed_data.account_subject_commitment ≡ commitment)

  unfoldable pub IsGoodObject : Transaction → Binding → Type 0
  IsGoodObject t r =
      (r.account_subject_commitment ≡ t.account_subject_commitment)
      × (has_passkey t.state ≡ true → is_set r.passkey_credential_id ≡ true)
      × ((i : WalletIntent)
          → t.wallet_intent ≡ some i
          → IsGoodIntent t.account_subject_commitment i)

  -- What holds of a row, of an object with its row
  abbrev pub IsGoodAt : Option Transaction → Option Binding → Type 0
  IsGoodAt none none = Unit {0}
  IsGoodAt none (some r) = IsGoodRow r
  IsGoodAt (some t) none = ⊥
  IsGoodAt (some t) (some r) = IsGoodRow r × IsGoodObject t r

  unfoldable pub IsGood : Trust → Type 0
  IsGood s =
      (k : ℕ)
      → IsGoodAt (select (has_transaction_id k) s.transactions)
          (select (has_binding_id k) s.store.bindings)

  -- What a write to the row of a binding needs
  abbrev pub Allows : BindingState → Detail → Option Binding → Type 0
  Allows state detail none = Unit {0}
  Allows state detail (some r) =
      (has_passkey state ≡ true
        → is_set (or_else detail.passkey_credential_id r.passkey_credential_id) ≡ true)
      × (same_state state active ≡ true → is_set r.passkey_credential_id ≡ true)
      × (has_wallet state ≡ true → is_set (or_else detail.wallet_address r.wallet_address) ≡ true)
      × ((w : ℕ) → detail.wallet_address ≡ some w → Signs w r.account_subject_commitment)

  early_lem :
      (state : BindingState)
      → has_passkey state ≡ false
      → (same_state state active ≡ false) × (has_wallet state ≡ false)
  early_lem created h = (refl, refl)
  early_lem jpki_asserted h = (refl, refl)
  early_lem _ h = absurd (ground arith)

  pub Allows-before :
      (state : BindingState) (r : Option Binding)
      → has_passkey state ≡ false
      → Allows state no_detail r
  Allows-before state none early = tt
  Allows-before state (some r) early = (
    λ n. absurd (ground arith),
    λ n. absurd (ground (arith, early_lem state early)),
    λ n. absurd (ground (arith, early_lem state early)),
    λ w e. absurd (ground arith),
  )

  module _ (t : Transaction) (state : BindingState) (detail : Detail) (now : ℕ) (s : Trust) where
    abbrev written : Binding → Binding
    written = set_binding (value_of t state detail now s)

    abbrev entered : Transaction → Transaction
    entered t = record t { state = state; updated_at = now }

    row_written : (r : Binding) → Allows state detail (some r) → IsGoodRow r → IsGoodRow (written r)
    unfolding IsGoodRow
    row_written r a h = elim (Option-cases detail.wallet_address) [
      | inl same ↦ (λ n. a.0 n, λ n. a.2 n, λ w e. h.2 w (ground arith))
      | inr (w', new) ↦ (λ n. a.0 n, λ n. a.2 n, λ w e. a.3 w (ground arith))
    ]

    kept_passkey :
        (r : Binding)
        → is_set r.passkey_credential_id ≡ true
        → is_set (or_else detail.passkey_credential_id r.passkey_credential_id) ≡ true
    kept_passkey r h = ground arith

    object_written :
        (o : Transaction) (r : Binding)
        → Allows state detail (some r)
        → IsGoodObject o r
        → IsGoodObject (entered o) (written r)
    unfolding IsGoodObject
    object_written o r a h = (h.0, λ n. a.0 n, h.2)

    good_written :
        (o : Option Transaction) (r : Option Binding)
        → Allows state detail r
        → IsGoodAt o r
        → IsGoodAt (map_option entered o) (map_option written r)
    good_written none none a h = tt
    good_written none (some r) a h = row_written r a h
    good_written (some o) none a h = h
    good_written (some o) (some r) a h = (row_written r a h.0, object_written o r a h.1)

    good_stopped :
        (o : Option Transaction) (r : Option Binding)
        → same_state state active ≡ true
        → Allows state detail r
        → IsGoodAt o r
        → IsGoodAt (map_option entered o) r
    unfolding IsGoodObject
    good_stopped none r last a h = h
    good_stopped (some o) none last a h = h
    good_stopped (some o) (some r) last a h = (h.0, (h.1.0, λ n. a.1 last, h.1.2))

    -- The object and the row of a key, after the two writes
    moved_object :
        (k : ℕ)
        → select (has_transaction_id k) (moved t state detail now s) ≡ (
            if k == t.binding_id
            then map_option entered (select (has_transaction_id k) s.transactions)
            else select (has_transaction_id k) s.transactions)
    moved_object k =
        select-update_each (λ (r : Transaction). r.binding_id) entered (λ y. refl) k t.binding_id
          s.transactions

    moved_row :
        (k : ℕ)
        → select (has_binding_id k) (update (has_binding_id t.binding_id) written s.store.bindings)
          ≡ (if k == t.binding_id
              then map_option written (select (has_binding_id k) s.store.bindings)
              else select (has_binding_id k) s.store.bindings)
    moved_row k =
        select-update_each (λ (r : Binding). r.binding_id) written (λ y. refl) k t.binding_id
          s.store.bindings

    pub transition-IsGood :
        Allows state detail (select (has_binding_id t.binding_id) s.store.bindings)
        → IsGood s
        → IsGood (transition t state detail now s).1
    unfolding IsGood
    transition-IsGood a h k =
        let allowed : k ≡ t.binding_id
            → Allows state detail (select (has_binding_id k) s.store.bindings) =
          λ e.
            subst (λ n. Allows state detail (select (has_binding_id n) s.store.bindings)) (sym e)
              a in
        elim (Bool-cases (k == t.binding_id)) [
          | inl hit ↦
              let own = allowed (ground arith) in
              elim (Bool-cases (is_stopped t state detail now s)) [
                | inl stopped ↦
                    rw (transition_stopped t state detail now s stopped, moved_object k, hit)
                      (good_stopped _ _ (ground arith) own (h k))
                | inr free ↦
                    rw
                      (
                        transition_written t state detail now s free,
                        moved_object k,
                        moved_row k,
                        hit,
                      )
                      (good_written _ _ own (h k))
              ]
          | inr miss ↦ elim (Bool-cases (is_stopped t state detail now s)) [
            | inl stopped ↦
                rw (transition_stopped t state detail now s stopped, moved_object k, miss) (h k)
            | inr free ↦
                rw (transition_written t state detail now s free, moved_object k, moved_row k, miss)
                  (h k)
          ]
        ]

-- The commitment of a row that has its passkey
abbrev pub settled : Option Binding → Option ℕ
settled none = none
settled (some r) =
    if is_set r.passkey_credential_id then some r.account_subject_commitment else none

unfoldable pub IsSettled : ℕ → ℕ → Trust → Type 0
IsSettled k commitment s = settled (select (has_binding_id k) s.store.bindings) ≡ some commitment

pub transition-IsSettled :
    (t : Transaction) (state : BindingState) (detail : Detail) (now k commitment : ℕ) (s : Trust)
    → IsSettled k commitment s
    → IsSettled k commitment (transition t state detail now s).1
unfolding IsSettled
transition-IsSettled t state detail now k commitment s h =
    let rows =
      select-update_each (λ (r : Binding). r.binding_id)
        (set_binding (value_of t state detail now s)) (λ y. refl) k t.binding_id s.store.bindings in
    elim (Bool-cases (is_stopped t state detail now s)) [
      | inl stopped ↦ rw (transition_stopped t state detail now s stopped) h
      | inr free ↦
          rw (transition_written t state detail now s free, rows)
            (elim (Option-cases (select (has_binding_id k) s.store.bindings)) [
              | inl missing ↦ absurd (ground arith)
              | inr (r, found) ↦ ground arith
            ])
    ]
