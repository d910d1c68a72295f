-- ===== src/DemoUsers/Repeats.antt =====
-- A registration that is sent again.
use creator_first_platform.Base.{ℕ, String, ◌≡◌, Bool, none, some, arith, inl, inr, eq_iff}
use creator_first_platform.Base.Exec.{ok, Result-cases}
use creator_first_platform.Account.{DemoUser}
use creator_first_platform.Participants.Forms.{TextMethods}
use creator_first_platform.DemoUsers.Registration.{
  Demo, RegistrationForm, valid_registration, register_new, register_again, register_from,
  register_demo_user,
}

module _ (is_word : ℕ → Bool) (methods : TextMethods) (registration_hash : String → ℕ) where
  valid_registration_state :
      (body : RegistrationForm) (s : Demo)
      → (valid_registration is_word methods registration_hash body s).1 ≡ s
  unfolding valid_registration
  valid_registration_state body s = ground arith

  valid_registration_lem :
      (body : RegistrationForm) (s t : Demo) (x : String × String)
      → (valid_registration is_word methods registration_hash body s).0 ≡ ok x
      → (valid_registration is_word methods registration_hash body t).0 ≡ ok x
  unfolding valid_registration
  valid_registration_lem body s t x h = ground arith

  register_new_lem :
      (name key : String) (registration user now : ℕ) (s : Demo) (n : ℕ) (value : DemoUser)
      → (register_new is_word methods registration_hash name key registration user now s).0
        ≡ ok (n, value)
      → let a =
          (register_new is_word methods registration_hash name key registration user now
            s).1.account in
        (a.demo_user ≡ some value)
        × (a.demo_registration_key ≡ some key)
        × (a.demo_registration_hash ≡ some (registration_hash name))
  unfolding register_new
  register_new_lem name key registration user now s n value h =
      (ground arith, ground arith, ground arith)

  again_lem :
      (body : RegistrationForm) (name key : String) (registration user now : ℕ) (s : Demo)
      (value : DemoUser)
      → (valid_registration is_word methods registration_hash body s).0 ≡ ok (name, key)
      → s.account.demo_user ≡ some value
      → s.account.demo_registration_key ≡ some key
      → s.account.demo_registration_hash ≡ some (registration_hash name)
      → register_demo_user is_word methods registration_hash body registration user now s
        ≡ (ok (200, value), s)
  unfolding register_demo_user register_from register_again
  again_lem body name key registration user now s value valid e k h =
      let same = valid_registration_state body s in ground (arith, eq_iff key key)

  register_first :
      (body : RegistrationForm) (registration user now : ℕ) (s : Demo) (value : DemoUser)
      → s.account.demo_user ≡ none
      → (register_demo_user is_word methods registration_hash body registration user now s).0
        ≡ ok (201, value)
      → (name : String) × (key : String) × ((valid_registration is_word methods registration_hash
            body s).0
          ≡ ok (name, key))
        × ((register_demo_user is_word methods registration_hash body registration user now
              s).1.account.demo_user
            ≡ some value)
        × ((register_demo_user is_word methods registration_hash body registration user now
              s).1.account.demo_registration_key
            ≡ some key)
        × ((register_demo_user is_word methods registration_hash body registration user now
              s).1.account.demo_registration_hash
            ≡ some (registration_hash name))
  unfolding register_demo_user register_from
  register_first body registration user now s value first h =
      let same = valid_registration_state body s in
      elim (Result-cases (valid_registration is_word methods registration_hash body s).0) [
        | inl ((name, key), r) ↦
            let (e, k, d) =
              register_new_lem name key registration user now s 201 value (ground arith) in
            (name, key, r, ground arith, ground arith, ground arith)
        | inr (f, r) ↦ absurd (ground arith)
      ]

  -- After a registration, by an account without a Test User, that is answered with 201, the same
  -- form again, with any new random values and time, is answered with 200 and the same Test User,
  -- and nothing is written.
  pub register_repeats :
      (body : RegistrationForm) (registration user now registration' user' now' : ℕ) (s : Demo)
      (value : DemoUser)
      → s.account.demo_user ≡ none
      → (register_demo_user is_word methods registration_hash body registration user now s).0
        ≡ ok (201, value)
      → let s' =
          (register_demo_user is_word methods registration_hash body registration user now s).1 in
        register_demo_user is_word methods registration_hash body registration' user' now' s'
        ≡ (ok (200, value), s')
  register_repeats body registration user now registration' user' now' s value first h =
      let (name, key, valid, e, k, d) = register_first body registration user now s value first h in
      let s' =
        (register_demo_user is_word methods registration_hash body registration user now s).1 in
      again_lem body name key registration' user' now' s' value
        (valid_registration_lem body s s' (name, key) valid) e k d
