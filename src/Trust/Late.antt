-- ===== src/Trust/Late.antt =====
-- A registration whose verification comes back late.
use creator_first_platform.Base.{ℕ, ◌≡◌, refl, Option, none, some, arith}
use creator_first_platform.Base.Table.{select, count}
use creator_first_platform.Base.Table.Keyed.{select-update_each}
use creator_first_platform.Base.Exec.{ok}
use creator_first_platform.Trust.Store.{
  active, passkey_registered, Binding, has_binding_id, has_credential_id, set_binding,
  save_webauthn_credential,
}
use creator_first_platform.Trust.Service.{Transaction, Trust, Detail}
use creator_first_platform.Trust.Passkeys.{
  AuthenticatorResponse, RegistrationInfo, verify_registration_finish,
}
use creator_first_platform.Trust.Trails.{value_of, transition_written}

module _ (verify_registration_response : AuthenticatorResponse → ℕ → Option RegistrationInfo) where
  -- Where the row of the binding is ACTIVE, a registration that was waiting for its verification,
  -- and comes back verified with a passkey that is not stored yet, succeeds and sets the row to
  -- PASSKEY_REGISTERED with that passkey.
  pub late_registration :
      (account : ℕ) (t : Transaction) (challenge : ℕ) (response : AuthenticatorResponse)
      (info : RegistrationInfo) (now : ℕ) (s : Trust) (r : Binding)
      → verify_registration_response response challenge ≡ some info
      → count (has_credential_id info.credential_id) s.store.credentials ≡ 0
      → select (has_binding_id t.binding_id) s.store.bindings ≡ some r
      → r.state ≡ active
      → let (answer, s') =
          verify_registration_finish verify_registration_response account t challenge response now
            s in
        (answer ≡ ok passkey_registered)
        × (select (has_binding_id t.binding_id) s'.store.bindings
            ≡ some (record r {
              state = passkey_registered;
              passkey_credential_id = some info.credential_id;
              updated_at = now;
            }))
  unfolding verify_registration_finish save_webauthn_credential
  late_registration account t challenge response info now s r verified new found done =
      let detail : Detail = record {
        wallet_address = none;
        passkey_credential_id = some info.credential_id;
      } in
      let written = λ (u : Trust). transition_written t passkey_registered detail now u refl in
      let row =
        select-update_each (λ (r : Binding). r.binding_id)
          (set_binding (value_of t passkey_registered detail now s)) (λ y. refl) t.binding_id
          t.binding_id s.store.bindings in
      rw (verified, new, written) (refl, ground arith)
