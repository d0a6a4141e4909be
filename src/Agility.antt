-- ===== src/Agility.antt =====
-- crypto_agility: the encoding of the scheme identifiers.
pub mod Codec
mod Tests
