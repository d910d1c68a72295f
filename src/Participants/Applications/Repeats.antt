-- ===== src/Participants/Applications/Repeats.antt =====
-- An application that is sent again.
use creator_first_platform.Base.{ℕ, String, ◌≡◌, none, some, arith, inl, inr, eq_iff, ◌==◌}
use creator_first_platform.Base.Table.{select-insert}
use creator_first_platform.Base.Exec.{ok, Result-cases}
use creator_first_platform.Account.{Account}
use creator_first_platform.Participants.Forms.{TextMethods}
use creator_first_platform.Participants.Rows.{Application, Database}
use creator_first_platform.Participants.Store.Applications.{
  participant_application_by_owner_id, participant_application_by_id, has_application_id,
}
use creator_first_platform.Participants.Applications.View.{participant_view}
use creator_first_platform.Participants.Applications.Service.{
  ApplicationForm, ValidApplication, PublicApplication, validate_application, new_application,
  create_new, create_or_answer, create, public_view,
}

module _ (digest : String → ℕ) (methods : TextMethods) where
  -- A form is checked without the database.
  validate_application_lem :
      (body : ApplicationForm) (db db' : Database) (v : ValidApplication)
      → (validate_application digest methods body db).0 ≡ ok v
      → (validate_application digest methods body db').0 ≡ ok v
  unfolding validate_application
  validate_application_lem body db db' v h = ground arith

  validate_application_keeps :
      (body : ApplicationForm) (db : Database)
      → (validate_application digest methods body db).1 ≡ db
  unfolding validate_application
  validate_application_keeps body db = ground arith

  create_new_lem :
      (owner : ℕ) (value : ValidApplication) (id : ℕ) (token : String) (now : ℕ) (db : Database)
      → participant_application_by_id id db ≡ none
      → participant_application_by_owner_id owner db ≡ none
      → (answer : PublicApplication)
      → (create_new digest methods owner value id token now db).0 ≡ ok answer
      → (participant_application_by_owner_id owner
            (create_new digest methods owner value id token now db).1
          ≡ some answer.0)
        × (answer.0.email ≡ value.email)
        × (answer.0.display_name ≡ value.display_name)
        × (answer.0.role_bits ≡ value.roles)
  unfolding create_new participant_application_by_owner_id
  create_new_lem owner value id token now db fresh first answer h =
      let row = new_application digest methods owner value id token now in
      ground (
        arith,
        select-insert (λ r. r.owner_id == owner) row db.applications,
        select-insert (has_application_id id) row db.applications,
      )

  create_first :
      (account : Account) (body : ApplicationForm) (id : ℕ) (token : String) (now : ℕ)
      (db : Database)
      → participant_application_by_id id db ≡ none
      → participant_application_by_owner_id account.account_id db ≡ none
      → (answer : PublicApplication)
      → (create digest methods account body id token now db).0 ≡ ok answer
      → (v : ValidApplication) × ((validate_application digest methods body db).0 ≡ ok v)
        × (participant_application_by_owner_id account.account_id
              (create digest methods account body id token now db).1
            ≡ some answer.0)
        × (answer.0.email ≡ v.email)
        × (answer.0.display_name ≡ v.display_name)
        × (answer.0.role_bits ≡ v.roles)
  unfolding create create_or_answer
  create_first account body id token now db fresh first answer h =
      let same = validate_application_keeps body db in
      elim (Result-cases (validate_application digest methods body db).0) [
        | inl (v, r) ↦
            let made =
              create_new_lem account.account_id v id token now db fresh first answer
                (ground arith) in
            (v, r, ground arith, made.1, made.2, made.3)
        | inr (f, r) ↦ absurd (ground arith)
      ]

  create_again :
      (account : Account) (body : ApplicationForm) (id : ℕ) (token : String) (now : ℕ)
      (db : Database) (v : ValidApplication) (row : Application)
      → (validate_application digest methods body db).0 ≡ ok v
      → participant_application_by_owner_id account.account_id db ≡ some row
      → row.email ≡ v.email
      → row.display_name ≡ v.display_name
      → row.role_bits ≡ v.roles
      → create digest methods account body id token now db
        ≡ (ok (row, participant_view row now db), db)
  unfolding create create_or_answer public_view
  create_again account body id token now db v row valid found e n r =
      let same = validate_application_keeps body db in
      ground (arith, eq_iff row.email v.email, eq_iff row.display_name v.display_name)

  -- After an application was created for an account that had none, under an identifier that no row
  -- had, the same form of the same account is answered with the same row, with its view at that
  -- moment, and nothing is written.
  pub create_repeats :
      (account : Account) (body : ApplicationForm) (id : ℕ) (token : String) (now : ℕ)
      (db : Database)
      → participant_application_by_id id db ≡ none
      → participant_application_by_owner_id account.account_id db ≡ none
      → (answer : PublicApplication)
      → (create digest methods account body id token now db).0 ≡ ok answer
      → (id' : ℕ) (token' : String) (now' : ℕ)
      → create digest methods account body id' token' now'
          (create digest methods account body id token now db).1
        ≡ (
          ok (
            answer.0,
            participant_view answer.0 now' (create digest methods account body id token now db).1,
          ),
          (create digest methods account body id token now db).1,
        )
  create_repeats account body id token now db fresh first answer h id' token' now' =
      let (v, valid, found, e, n, r) =
        create_first account body id token now db fresh first answer h in
      create_again account body id' token' now'
        (create digest methods account body id token now db).1 v answer.0
        (validate_application_lem body db _ v valid) found e n r
