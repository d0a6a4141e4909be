-- ===== src/Wallet.antt =====
-- agent_wallet: key policies, spending limits, revocation and rotation of keys.
pub mod Errors
pub mod Policy
pub mod Spending
pub mod Revocation
pub mod RevocationSet
pub mod Rotation
pub mod Slip10
mod Tests
