-- ===== src/Trust.antt =====
-- The binding of an account to a passkey and a wallet: AccountTrustService.js.
pub mod Store
pub mod Service
pub mod Passkeys
pub mod Wallets
pub mod Trails
pub mod Histories
pub mod Tests
pub mod Signed
pub mod Interleavings
pub mod Late
pub mod Completes
