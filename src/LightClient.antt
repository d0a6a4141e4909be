-- ===== src/LightClient.antt =====
-- light_client: checking a balance against a chain of signed block headers.
pub mod Header
pub mod Verify
pub mod Soundness
mod Tests
