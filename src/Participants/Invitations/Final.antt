-- ===== src/Participants/Invitations/Final.antt =====
-- A claimed invitation is final.
use creator_first_platform.Base.{ℕ, String, ◌≡◌, refl, Option, some, List, arith}
use creator_first_platform.Participants.Forms.{TextMethods}
use creator_first_platform.Participants.Rows.{claimed, Invitation, Database}
use creator_first_platform.Participants.Store.Invitations.{participant_invitation_by_id}
use creator_first_platform.Participants.Invitations.Histories.{
  Step, run, IsOrdered, IsKept, Holds-intro, Holds-elim, run_keeps,
}

final-IsKept : (r : Invitation) (now : ℕ) → r.state ≡ claimed → IsKept (λ x. x ≡ r) now
final-IsKept r now c = record {
  on_sent = λ x p e. absurd (ground arith);
  on_rotated = λ x hash expires p e. absurd (ground arith);
  on_resent = λ x start n p e. absurd (ground arith);
  on_claimed = λ x w p e. absurd (ground arith);
}

-- Once an invitation is claimed its row, wallet included, stays as it is through any interleaving
-- of the service's handlers under a clock that does not run backwards.
pub run_claimed :
    (digest : String → ℕ) (methods : TextMethods) (get_address : ℕ → Option ℕ) (id now : ℕ)
    (r : Invitation) (es : List (ℕ × Step)) (db : Database)
    → participant_invitation_by_id id db ≡ some r
    → r.state ≡ claimed
    → IsOrdered now es
    → participant_invitation_by_id id (run digest methods get_address db es) ≡ some r
run_claimed digest methods g id now r es db found c o =
    let kept =
      run_keeps digest methods g id (λ x. x ≡ r) now now (λ t _. final-IsKept r t c) (omega arith)
        es db o (Holds-intro id (λ x. x ≡ r) r db found refl) in
    let (x, e, same) = Holds-elim id (λ x. x ≡ r) (run digest methods g db es) kept in rw (← same) e
