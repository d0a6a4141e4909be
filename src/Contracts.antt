-- ===== src/Contracts.antt =====
-- agent_contracts: the standard contracts, each a program over the networks of the ternary VM.
pub mod Errors
pub mod Program
pub mod Guarded
pub mod Standard
pub mod Transfer
pub mod Escrow
pub mod Conditional
pub mod Swap
pub mod RiskGated
pub mod Agreement
pub mod Built
pub mod Disputes
mod Tests
