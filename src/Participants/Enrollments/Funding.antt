-- ===== src/Participants/Enrollments/Funding.antt =====
-- The initial funding of a participant: no transaction after one that took effect.
use creator_first_platform.Base.{
  ℕ, ◌<◌, ◌≡◌, refl, subst, Bool, true, false, Option, none, some, List, [], ◌∷◌, ◌==◌, arith,
  Bool-cases, Option-cases, inl, inr, if◌then◌else◌,
}
use creator_first_platform.Base.Table.{count}
use creator_first_platform.Base.Exec.{ok, Failure, bind_keeps, Result-cases}
use creator_first_platform.Participants.Rows.{Invitation, Enrollment, Database}
use creator_first_platform.Participants.Store.Enrollments.{is_unfunded, participant_enrollment}
use creator_first_platform.Participants.Enrollments.Chain.{Chain, ChainStatus}
use creator_first_platform.Participants.Enrollments.Operator.{
  Inputs, Fault, no_fault, fault_before, fault_pending, fault_after, Transaction, approval_of,
  funding_of, FundingEvent, submits, takes_effect, World, mined, await_receipt, is_zero,
  chain_status, chain_approve, chain_fund, approve_step, resume_step, approve_or_resume, fund_step,
  drive, recover, prepare,
}
use creator_first_platform.Participants.Enrollments.Progress.{approved_lem}

abbrev pub is_effect_on : ℕ → FundingEvent → Bool
is_effect_on p (takes_effect q) = q == p
is_effect_on p (submits _) = false

-- Nothing more happens to a participant once a funding of it has taken effect.
unfoldable pub IsOrderly : List FundingEvent → Type 0
IsOrderly [] = Unit {0}
IsOrderly (submits p ∷ events) = (count (is_effect_on p) events ≡ 0) × IsOrderly events
IsOrderly (takes_effect p ∷ events) = (count (is_effect_on p) events ≡ 0) × IsOrderly events

module _ (c : Chain) where
  open c use {State, status, approve, fund, fund_completes, fund_keeps, fund_refuses, approve_keeps}

  -- The chain reports a participant of which a funding has taken effect.
  pub IsReported : State → List FundingEvent → Type 0
  IsReported s fundings =
      (p : ℕ)
      → 0 < count (is_effect_on p) fundings
      → (wallet : ℕ) → (status s p wallet).initial_funding_completed ≡ true

  pub FundsOnce : World c → Type 0
  FundsOnce w = IsOrderly w.fundings × IsReported w.chain w.fundings

  approved-IsReported :
      (s s' : State) (fundings : List FundingEvent) (p wallet roles expires : ℕ)
      → approve s p wallet roles expires ≡ some s'
      → IsReported s fundings
      → IsReported s' fundings
  unfolding IsReported
  approved-IsReported s s' fundings p wallet roles expires done h q k wallet' =
      approve_keeps s s' p wallet roles expires q wallet' done (h q k wallet')

  funded-IsReported :
      (s s' : State) (fundings : List FundingEvent) (p operation : ℕ)
      → fund s p operation ≡ some s'
      → IsReported s fundings
      → IsReported s' (takes_effect p ∷ fundings)
  unfolding IsReported count
  funded-IsReported s s' fundings p operation done h q k wallet = elim (Bool-cases (p == q)) [
    | inl same ↦
        let equal : p ≡ q = ground arith in
        subst (λ r. (status s' r wallet).initial_funding_completed ≡ true) equal
          (fund_completes s s' p operation wallet done)
    | inr other ↦
        let before : 0 < count (is_effect_on q) fundings = ground arith in
        fund_keeps s s' p operation q wallet done (h q before wallet)
  ]

  unreported_count :
      (s : State) (fundings : List FundingEvent) (p wallet : ℕ)
      → IsReported s fundings
      → (status s p wallet).initial_funding_completed ≡ false
      → count (is_effect_on p) fundings ≡ 0
  unfolding IsReported
  unreported_count s fundings p wallet h f =
      let completed : 0 < count (is_effect_on p) fundings
          → (status s p wallet).initial_funding_completed ≡ true =
        λ k. h p k wallet in
      ground arith

  -- A funding that takes effect is the first: the contract refuses another.
  accepted_count :
      (s s' : State) (fundings : List FundingEvent) (p operation : ℕ)
      → fund s p operation ≡ some s'
      → IsReported s fundings
      → count (is_effect_on p) fundings ≡ 0
  unfolding IsReported
  accepted_count s s' fundings p operation done h =
      let refused : 0 < count (is_effect_on p) fundings → fund s p operation ≡ none =
        λ k. fund_refuses s p operation 0 (h p k 0) in
      ground arith

  pub mined-FundsOnce : (t : Transaction) (w : World c) → FundsOnce w → FundsOnce (mined c t w).1
  unfolding mined FundsOnce IsOrderly
  mined-FundsOnce (approval_of p wallet roles expires) w h =
      elim (Option-cases (approve w.chain p wallet roles expires)) [
        | inl reverted ↦ rw (reverted, mined) h
        | inr (s, done) ↦
            rw (done, mined)
              (h.0, approved-IsReported w.chain s w.fundings p wallet roles expires done h.1)
      ]
  mined-FundsOnce (funding_of p operation) w h = elim (Option-cases (fund w.chain p operation)) [
    | inl reverted ↦ rw (reverted, mined) h
    | inr (s, done) ↦
        rw (done, mined)
          (
            (accepted_count w.chain s w.fundings p operation done h.1, h.0),
            funded-IsReported w.chain s w.fundings p operation done h.1,
          )
  ]

  receipt-FundsOnce :
      (t : Transaction) (fault : Fault) (tx : ℕ) (w : World c)
      → FundsOnce w
      → FundsOnce (await_receipt c t fault tx w).1
  unfolding await_receipt FundsOnce
  receipt-FundsOnce t fault_before tx w h = h
  receipt-FundsOnce t fault_pending tx w h = h
  receipt-FundsOnce t no_fault tx w h = ground (arith, mined-FundsOnce t w h)
  receipt-FundsOnce t fault_after tx w h = ground (arith, mined-FundsOnce t w h)

  -- A submission for a participant that the chain does not report comes before any effect on it.
  fund-FundsOnce :
      (e : Enrollment) (fault : Fault) (tx wallet : ℕ) (w : World c)
      → FundsOnce w
      → (status w.chain e.participant_id wallet).initial_funding_completed ≡ false
      → FundsOnce (chain_fund c e fault tx w).1
  unfolding chain_fund FundsOnce IsOrderly IsReported count
  fund-FundsOnce e fault tx wallet w h f =
      let t = funding_of e.participant_id e.operation_id in
      let first = unreported_count w.chain w.fundings e.participant_id wallet h.1 f in
      let submitted : FundsOnce (record w { fundings = submits e.participant_id ∷ w.fundings }) =
        ((first, h.0), λ q k wallet'. h.1 q (ground arith) wallet') in
      elim fault as (λ k. FundsOnce (chain_fund c e k tx w).1) [
        | no_fault ↦ receipt-FundsOnce t no_fault tx _ submitted
        | fault_before ↦ receipt-FundsOnce t fault_before tx w h
        | fault_pending ↦ receipt-FundsOnce t fault_pending tx _ submitted
        | fault_after ↦ receipt-FundsOnce t fault_after tx _ submitted
      ]

  -- A receipt that is awaited leaves the database; and answers with the transaction's hash.
  pub receipt_db :
      (t : Transaction) (fault : Fault) (tx : ℕ) (w : World c)
      → (await_receipt c t fault tx w).1.db ≡ w.db
  unfolding await_receipt mined
  receipt_db (approval_of p wallet roles expires) fault tx w = ground arith
  receipt_db (funding_of p operation) fault tx w = ground arith

  pub receipt_answer :
      (t : Transaction) (fault : Fault) (tx x : ℕ) (w : World c)
      → (await_receipt c t fault tx w).0 ≡ ok x
      → x ≡ tx
  unfolding await_receipt
  receipt_answer t fault tx x w r = ground arith

  pub fund_db :
      (e : Enrollment) (fault : Fault) (tx : ℕ) (w : World c)
      → (chain_fund c e fault tx w).1.db ≡ w.db
  unfolding chain_fund
  fund_db e fault tx w =
      let t = funding_of e.participant_id e.operation_id in
      let w' : World c = record w { fundings = submits e.participant_id ∷ w.fundings } in
      ground (arith, receipt_db t fault tx w, receipt_db t fault tx w')

  pub fund_answer :
      (e : Enrollment) (fault : Fault) (tx x : ℕ) (w : World c)
      → (chain_fund c e fault tx w).0 ≡ ok x
      → x ≡ tx
  unfolding chain_fund
  fund_answer e fault tx x w r =
      let t = funding_of e.participant_id e.operation_id in
      let w' : World c = record w { fundings = submits e.participant_id ∷ w.fundings } in
      ground (arith, receipt_answer t fault tx x w, receipt_answer t fault tx x w')

  pub fault_status :
      (p wallet : ℕ) (fault : Bool) (w : World c) → (chain_status c p wallet fault w).1 ≡ w
  unfolding chain_status
  fault_status p wallet true w = refl
  fault_status p wallet false w = refl

  status_lem :
      (p wallet : ℕ) (fault : Bool) (w : World c) (s : ChainStatus)
      → (chain_status c p wallet fault w).0 ≡ ok s
      → s ≡ status w.chain p wallet
  unfolding chain_status
  status_lem p wallet true w s h = cc
  status_lem p wallet false w s h = cc

  approve_step-FundsOnce :
      (id wallet : ℕ) (e : Enrollment) (input : Inputs) (w : World c)
      → FundsOnce w
      → FundsOnce (approve_step c id wallet e input w).1
  unfolding FundsOnce approve_step chain_approve chain_status
  approve_step-FundsOnce id wallet e input w h =
      let t = approval_of e.participant_id wallet e.role_bits e.approval_expires_at in
      let kept = receipt-FundsOnce t input.approve_fault input.approve_tx w h in ground arith

  approve_step_status :
      (id wallet : ℕ) (e : Enrollment) (input : Inputs) (w : World c) (e' : Enrollment)
      (s : ChainStatus)
      → (approve_step c id wallet e input w).0 ≡ ok (e', s)
      → s ≡ status (approve_step c id wallet e input w).1.chain e'.participant_id wallet
  unfolding approve_step chain_approve chain_status
  approve_step_status id wallet e input w e' s h = ground arith

  module _ (id wallet : ℕ) (e : Enrollment) (input : Inputs) (w : World c) where
    -- Where the row is there and not funded, what the chain says stays, and so does the participant.
    resume_step_lem :
        (s : ChainStatus)
        → participant_enrollment id w.db ≡ some e
        → is_unfunded e.state ≡ true
        → s ≡ status w.chain e.participant_id wallet
        → FundsOnce w
        → FundsOnce (resume_step c id e s input w).1
          × ((e' : Enrollment) (s' : ChainStatus)
              → (resume_step c id e s input w).0 ≡ ok (e', s')
              → s' ≡ status (resume_step c id e s input w).1.chain e'.participant_id wallet)
    unfolding resume_step FundsOnce
    resume_step_lem s found u same h =
        let row = approved_lem id input.now e w.db found e.approval_tx_hash u in
        (ground arith, λ e' s' r. ground arith)

    fund_step-FundsOnce :
        (s : ChainStatus)
        → s ≡ status w.chain e.participant_id wallet
        → FundsOnce w
        → FundsOnce (fund_step c id e s input w).1
    unfolding fund_step FundsOnce
    fund_step-FundsOnce s same h =
        let kept = fund-FundsOnce e input.fund_fault input.fund_tx wallet w h in ground arith

    pub recover-FundsOnce : (f : Failure) → FundsOnce w → FundsOnce (recover c id e input.now f w).1
    unfolding recover FundsOnce
    recover-FundsOnce f h = ground arith

  approve_or_resume_lem :
      (id wallet : ℕ) (e : Enrollment) (input : Inputs) (w : World c) (s : ChainStatus)
      → participant_enrollment id w.db ≡ some e
      → is_unfunded e.state ≡ true
      → s ≡ status w.chain e.participant_id wallet
      → FundsOnce w
      → FundsOnce (approve_or_resume c id wallet e s input w).1
        × ((e' : Enrollment) (s' : ChainStatus)
            → (approve_or_resume c id wallet e s input w).0 ≡ ok (e', s')
            → s'
              ≡ status (approve_or_resume c id wallet e s input w).1.chain e'.participant_id wallet)
  unfolding approve_or_resume
  approve_or_resume_lem id wallet e input w s found u same h = split (is_zero s.wallet)
    where
      split :
          (b : Bool)
          → FundsOnce
              ((if b then approve_step c id wallet e input else resume_step c id e s input) w).1
            × ((e' : Enrollment) (s' : ChainStatus)
                → ((if b then approve_step c id wallet e input else resume_step c id e s input) w).0
                  ≡ ok (e', s')
                → s'
                  ≡ status
                      ((if b then approve_step c id wallet e input else resume_step c id e s input)
                        w).1.chain
                      e'.participant_id
                      wallet)
      split true =
          (approve_step-FundsOnce id wallet e input w h, approve_step_status id wallet e input w)
      split false = resume_step_lem id wallet e input w s found u same h

  pub drive-FundsOnce :
      (id wallet : ℕ) (e : Enrollment) (input : Inputs) (w : World c)
      → participant_enrollment id w.db ≡ some e
      → is_unfunded e.state ≡ true
      → FundsOnce w
      → FundsOnce (drive c id wallet e input w).1
  unfolding drive
  drive-FundsOnce id wallet e input w found u h =
      let p = e.participant_id in
      let fault = input.first_status_fault in
      bind_keeps FundsOnce (chain_status c p wallet fault) _ w
        (rw (fault_status p wallet fault w) h)
        λ s r. rw (fault_status p wallet fault w) (
          let (kept, seen) =
            approve_or_resume_lem id wallet e input w s found u (status_lem p wallet fault w s r)
              h in
          elim (Result-cases (approve_or_resume c id wallet e s input w).0) [
            | inl ((e', s'), r') ↦
                let f =
                  fund_step-FundsOnce id wallet e' input
                    (approve_or_resume c id wallet e s input w).1 s' (seen e' s' r') kept in
                ground arith
            | inr (f, r') ↦ ground arith
          ])

  pub prepare-FundsOnce :
      (invitation : Invitation) (wallet : ℕ) (input : Inputs) (stored : Option Enrollment)
      (w : World c)
      → FundsOnce w
      → FundsOnce (prepare c invitation wallet input stored w).1
  unfolding prepare FundsOnce
  prepare-FundsOnce invitation wallet input none w h = h
  prepare-FundsOnce invitation wallet input (some e) w h = h

  pub writes-FundsOnce :
      (f : Database → Database) (w : World c) → FundsOnce w → FundsOnce (record w { db = f w.db })
  unfolding FundsOnce
  writes-FundsOnce f w h = h

  pub pending-FundsOnce :
      (ts : List Transaction) (w : World c) → FundsOnce w → FundsOnce (record w { pending = ts })
  unfolding FundsOnce
  pending-FundsOnce ts w h = h

  pub FundsOnce-start : (w : World c) → w.fundings ≡ [] → FundsOnce w
  unfolding FundsOnce IsOrderly IsReported count
  FundsOnce-start w start = rw start (tt, λ p k. absurd (ground arith))

  pub FundsOnce-IsOrderly : (w : World c) → FundsOnce w → IsOrderly w.fundings
  unfolding FundsOnce
  FundsOnce-IsOrderly w h = h.0
