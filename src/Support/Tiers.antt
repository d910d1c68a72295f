-- ===== src/Support/Tiers.antt =====
-- Nobody becomes a supporter without a signature of the wallet.
use creator_first_platform.Base.{
  ℕ, ◌≡◌, refl, String, inl, inr, false, Option, some, List, [], arith, Option-cases, Bool-cases,
  sym, subst, ◌∙◌,
}
use creator_first_platform.Base.Table.{select, update, insert}
use creator_first_platform.Base.Table.{
  select_holds, select-insert, select-insert_old, select-insert_ne,
}
use creator_first_platform.Base.Table.Keyed.{select-update_key, select-update_missing}
use creator_first_platform.Base.Exec.{ok, Result-cases}
use creator_first_platform.Catalog.{early_supporter_tier}
use creator_first_platform.Account.{Account}
use creator_first_platform.Support.Intents.{
  IntentMessage, sbt_active, Intent, Support, has_request_id, is_signature_required, confirm,
  submit_check, submit_finish, submit_support, support_registration,
}

module _ (recover : IntentMessage → String → Option ℕ) where
  -- The typed data is about the intent's wallet and artist; past the first status the wallet has
  -- signed it.
  pub record IsSound (i : Intent) : Type 0 where
    pub supporter_lem : i.typed_data.supporter ≡ i.address
    pub artist_lem : i.typed_data.artist_id ≡ i.artist_id
    pub signed :
        is_signature_required i.status ≡ false
        → (i.tier ≡ early_supporter_tier)
          × (signature : String) × (recover i.typed_data signature ≡ some i.address)

  -- of every intent that the map has
  pub AreSound : List Intent → Type 0
  AreSound rows = (id : ℕ) (i : Intent) → select (has_request_id id) rows ≡ some i → IsSound i

  pub AreSound-nil : AreSound []
  unfolding AreSound select
  AreSound-nil id i e = absurd (ground arith)

  pub insert-AreSound :
      (x : Intent) (rows : List Intent) → IsSound x → AreSound rows → AreSound (insert x rows)
  unfolding AreSound
  insert-AreSound x rows q h id i e = elim (Option-cases (select (has_request_id id) rows)) [
    | inr (old, found) ↦
        h id i (found ∙ (sym (select-insert_old (has_request_id id) x rows old found) ∙ e))
    | inl missing ↦ elim (Bool-cases (has_request_id id x)) [
      | inl own ↦
          let same : x ≡ i = ground (arith, select-insert (has_request_id id) x rows own missing) in
          subst IsSound same q
      | inr other ↦ absurd (ground (arith, select-insert_ne (has_request_id id) x rows other))
    ]
  ]

  update-AreSound :
      (k : ℕ) (f : Intent → Intent) (x : Intent) (rows : List Intent)
      → ((y : Intent) → (f y).request_id ≡ y.request_id)
      → select (has_request_id k) rows ≡ some x
      → IsSound (f x)
      → AreSound rows
      → AreSound (update (has_request_id k) f rows)
  unfolding AreSound
  update-AreSound k f x rows keep found q h id i e =
      elim (Option-cases (select (has_request_id id) rows)) [
        | inr (old, there) ↦
            let after =
              select-update_key (λ y. y.request_id) (has_request_id k) f keep id old rows there in
            let own = select_holds (has_request_id id) old rows there in
            elim (Bool-cases (has_request_id k old)) [
              | inl hit ↦
                  let own_id : id ≡ k = ground arith in
                  let there' : select (has_request_id k) rows ≡ some old =
                    subst (λ n. select (has_request_id n) rows ≡ some old) own_id there in
                  let same : x ≡ old = ground arith in
                  let read : f old ≡ i = ground arith in
                  subst IsSound read (subst (λ y. IsSound (f y)) same q)
              | inr miss ↦ let read : old ≡ i = ground arith in subst IsSound read (h id old there)
            ]
        | inl missing ↦ absurd (
            ground (
              arith,
              select-update_missing (λ (y : Intent). y.request_id) (has_request_id k) f keep id rows
                  missing,
            ))
      ]

  row_lem :
      (id : ℕ) (i : Intent) (rows : List Intent)
      → select (has_request_id id) rows ≡ some i
      → i.request_id ≡ id
  row_lem id i rows e = ground (arith, select_holds (has_request_id id) i rows e)

  own_row :
      (id : ℕ) (i : Intent) (rows : List Intent)
      → select (has_request_id id) rows ≡ some i
      → select (has_request_id i.request_id) rows ≡ some i
  own_row id i rows e =
      subst (λ k. select (has_request_id k) rows ≡ some i) (sym (row_lem id i rows e)) e

  pub AreSound-select :
      (id : ℕ) (i : Intent) (rows : List Intent)
      → AreSound rows
      → select (has_request_id id) rows ≡ some i
      → IsSound i
  unfolding AreSound
  AreSound-select id i rows h e = h id i e

  finish-AreSound :
      (i : Intent) (signature : String) (now : ℕ) (s : Support)
      → select (has_request_id i.request_id) s.intents ≡ some i
      → AreSound s.intents
      → AreSound (submit_finish recover i signature now s).1.intents
  unfolding submit_finish
  finish-AreSound i signature now s found h =
      let old = AreSound-select i.request_id i s.intents h found in
      let kept : recover i.typed_data signature ≡ some i.address
          → AreSound (update (has_request_id i.request_id) (confirm now) s.intents) =
        λ r.
          update-AreSound i.request_id (confirm now) i s.intents (λ y. refl) found
            (record {
              supporter_lem = old.supporter_lem;
              artist_lem = old.artist_lem;
              signed = λ _. (refl, signature, r);
            })
            h in
      ground arith

  submit_check_lem :
      (a : Account) (id now : ℕ) (s : Support)
      → ((submit_check recover a id now s).1 ≡ s)
        × ((i : Intent)
            → (submit_check recover a id now s).0 ≡ ok i
            → select (has_request_id id) s.intents ≡ some i)
  unfolding submit_check
  submit_check_lem a id now s = (ground arith, λ i r. ground arith)

  pub submit-AreSound :
      (a : Account) (id : ℕ) (signature : String) (now : ℕ) (s : Support)
      → AreSound s.intents
      → AreSound (submit_support recover a id signature now s).1.intents
  unfolding submit_support
  submit-AreSound a id signature now s h =
      let (same, found) = submit_check_lem a id now s in
      elim (Result-cases (submit_check recover a id now s).0) [
        | inr (f, r) ↦ ground arith
        | inl (i, r) ↦
            let kept = finish-AreSound i signature now s (own_row id i s.intents (found i r)) h in
            ground arith
      ]

  pub registration-AreSound :
      (a : Account) (id now : ℕ) (s : Support)
      → AreSound s.intents
      → AreSound (support_registration recover a id now s).1.intents
  unfolding support_registration
  registration-AreSound a id now s h = elim (Option-cases (select (has_request_id id) s.intents)) [
    | inl missing ↦ ground arith
    | inr (i, found) ↦
        let old = AreSound-select id i s.intents h found in
        let kept : is_signature_required i.status ≡ false
            → AreSound (
                update (has_request_id i.request_id) (λ y. record y { status = sbt_active })
                  s.intents) =
          λ c.
            update-AreSound i.request_id (λ y. record y { status = sbt_active }) i s.intents
              (λ y. refl) (own_row id i s.intents found)
              (record {
                supporter_lem = old.supporter_lem;
                artist_lem = old.artist_lem;
                signed = λ _. old.signed c;
              })
              h in
        ground arith
  ]
