-- ===== src/Participants/Enrollments/Once.antt =====
-- Runs of the operator one after another, with other writes to the database and the late mining of
-- pending transactions between them.
use creator_first_platform.Base.{
  ℕ, zero, suc, ◌≡◌, true, Option, none, some, List, [], ◌∷◌, ◌==◌, arith, Option-cases, inl, inr,
}
use creator_first_platform.Base.Table.{select_holds, select-insert}
use creator_first_platform.Base.Exec.{ok, Result-cases}
use creator_first_platform.Participants.Rows.{Invitation, Enrollment, Database}
use creator_first_platform.Participants.Store.Invitations.{participant_invitation_by_id}
use creator_first_platform.Participants.Store.Enrollments.{
  is_unfunded, participant_enrollment, has_enrollment,
}
use creator_first_platform.Participants.Enrollments.Chain.{Chain}
use creator_first_platform.Participants.Enrollments.Operator.{
  Inputs, Transaction, World, mined, drive, drive_and_recover, prepare, wallet_of, enroll, process,
}
use creator_first_platform.Participants.Enrollments.Funding.{
  IsOrderly, FundsOnce, mined-FundsOnce, writes-FundsOnce, pending-FundsOnce, FundsOnce-start,
  FundsOnce-IsOrderly, prepare-FundsOnce, drive-FundsOnce, recover-FundsOnce,
}

module _ (c : Chain) where
  drive_and_recover-FundsOnce :
      (id wallet : ℕ) (e : Enrollment) (input : Inputs) (w : World c)
      → participant_enrollment id w.db ≡ some e
      → is_unfunded e.state ≡ true
      → FundsOnce c w
      → FundsOnce c (drive_and_recover c id wallet e input w).1
  unfolding drive_and_recover
  drive_and_recover-FundsOnce id wallet e input w found u h =
      let kept = drive-FundsOnce c id wallet e input w found u h in
      elim (Result-cases (drive c id wallet e input w).0) [
        | inl (e', r) ↦ ground arith
        | inr (f, r) ↦
            let kept' =
              recover-FundsOnce c id wallet e input (drive c id wallet e input w).1 f kept in
            ground arith
      ]

  pub prepare_lem :
      (id : ℕ) (invitation : Invitation) (wallet : ℕ) (input : Inputs) (w : World c)
      → invitation.invitation_id ≡ id
      → (e : Enrollment)
      → (prepare c invitation wallet input (participant_enrollment id w.db) w).0 ≡ ok e
      → participant_enrollment id
          (prepare c invitation wallet input (participant_enrollment id w.db) w).1.db
        ≡ some e
  unfolding prepare participant_enrollment
  prepare_lem id invitation wallet input w same e r =
      elim (Option-cases (participant_enrollment id w.db)) [
        | inl missing ↦ ground (arith, select-insert (has_enrollment id) e w.db.enrollments)
        | inr (x, found) ↦ ground arith
      ]

  pub participant_invitation_by_id_lem :
      (id : ℕ) (invitation : Invitation) (db : Database)
      → participant_invitation_by_id id db ≡ some invitation
      → invitation.invitation_id ≡ id
  unfolding participant_invitation_by_id
  participant_invitation_by_id_lem id invitation db found = ground (
    arith,
    select_holds (λ (r : Invitation). r.invitation_id == id) invitation db.invitations found,
  )

  pub wallet_of_lem :
      (get_address : ℕ → Option ℕ) (invitation : Invitation) (w : World c)
      → (wallet_of c get_address invitation w).1 ≡ w
  unfolding wallet_of
  wallet_of_lem get_address invitation w = ground arith

  after_wallet :
      (id : ℕ) (invitation : Invitation) (wallet : ℕ) (input : Inputs) (w : World c)
      → invitation.invitation_id ≡ id
      → FundsOnce c w
      → FundsOnce c (enroll c id invitation wallet input w).1
  unfolding enroll
  after_wallet id invitation wallet input w same h =
      let stored = participant_enrollment id w.db in
      let kept = prepare-FundsOnce c invitation wallet input stored w h in
      elim (Result-cases (prepare c invitation wallet input stored w).0) [
        | inl (e, r) ↦
            let found = prepare_lem id invitation wallet input w same e r in
            let driven : is_unfunded e.state ≡ true
                → FundsOnce c
                    (drive_and_recover c id wallet e input
                      (prepare c invitation wallet input stored w).1).1 =
              λ u.
                drive_and_recover-FundsOnce id wallet e input
                  (prepare c invitation wallet input stored w).1 found u kept in
            ground arith
        | inr (f, r) ↦ ground arith
      ]

  pub process-FundsOnce :
      (get_address : ℕ → Option ℕ) (id : ℕ) (input : Inputs) (w : World c)
      → FundsOnce c w
      → FundsOnce c (process c get_address id input w).1
  unfolding process
  process-FundsOnce get_address id input w h =
      elim (Option-cases (participant_invitation_by_id id w.db)) [
        | inl missing ↦ ground arith
        | inr (invitation, found) ↦
            let same = participant_invitation_by_id_lem id invitation w.db found in
            let still = wallet_of_lem get_address invitation w in
            elim (Result-cases (wallet_of c get_address invitation w).0) [
              | inl (wallet, r) ↦
                  let kept = after_wallet id invitation wallet input w same h in ground arith
              | inr (f, r) ↦ ground arith
            ]
      ]

-- A run for an invitation; the mining of a pending transaction; or any other write to the database.
pub data Call : Type 0 where
  runs : ℕ → Inputs → Call
  mines : ℕ → Call
  writes : (Database → Database) → Call

-- The pending transaction at a place, and the others
abbrev pub take_pending : ℕ → List Transaction → Option Transaction × List Transaction
take_pending k [] = (none, [])
take_pending zero (t ∷ ts) = (some t, ts)
take_pending (suc k) (t ∷ ts) = let (found, rest) = take_pending k ts in (found, t ∷ rest)

module _ (c : Chain) (get_address : ℕ → Option ℕ) where
  abbrev mine : Option Transaction × List Transaction → World c → World c
  mine (none, ts) w = w
  mine (some t, ts) w = (mined c t (record w { pending = ts })).1

  unfoldable pub step : Call → World c → World c
  step (runs id input) w = (process c get_address id input w).1
  step (mines k) w = mine (take_pending k w.pending) w
  step (writes f) w = record w { db = f w.db }

  unfoldable pub run : List Call → World c → World c
  run [] w = w
  run (call ∷ calls) w = run calls (step call w)

  mine-FundsOnce :
      (t : Option Transaction × List Transaction) (w : World c)
      → FundsOnce c w
      → FundsOnce c (mine t w)
  mine-FundsOnce (none, ts) w h = h
  mine-FundsOnce (some t, ts) w h =
      mined-FundsOnce c t (record w { pending = ts }) (pending-FundsOnce c ts w h)

  step-FundsOnce : (call : Call) (w : World c) → FundsOnce c w → FundsOnce c (step call w)
  unfolding step
  step-FundsOnce (runs id input) w h = process-FundsOnce c get_address id input w h
  step-FundsOnce (mines k) w h = mine-FundsOnce (take_pending k w.pending) w h
  step-FundsOnce (writes f) w h = writes-FundsOnce c f w h

  run-FundsOnce : (calls : List Call) (w : World c) → FundsOnce c w → FundsOnce c (run calls w)
  unfolding run
  run-FundsOnce [] w h = h
  run-FundsOnce (call ∷ calls) w h = run-FundsOnce calls (step call w) (step-FundsOnce call w h)

  -- From a world without fundings, after any sequence of runs, of minings of pending transactions
  -- and of other writes to the database, each run with any faults of its calls of the chain and
  -- any reverts, and no pending transaction mined within a run, the log of the fundings is
  -- orderly: once a `fundInitial` transaction of a participant has taken effect, at once or later,
  -- none is submitted for it and none takes effect.
  pub run_funds_once :
      (calls : List Call) (w : World c) → w.fundings ≡ [] → IsOrderly (run calls w).fundings
  run_funds_once calls w start =
      FundsOnce-IsOrderly c (run calls w) (run-FundsOnce calls w (FundsOnce-start c w start))
