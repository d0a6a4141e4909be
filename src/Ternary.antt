-- ===== src/Ternary.antt =====
-- ternary_vm: the ternary networks, their integer kernel and the seven primitives.
pub mod Errors
pub mod Thermo
pub mod Network
pub mod Sums
pub mod Parallel
pub mod Weights
pub mod Operands
pub mod Projection
pub mod ByteAdd
pub mod ByteSub
pub mod TransferCheck
pub mod TransferFinalize
pub mod FreezeApply
pub mod FreezeSetup
pub mod MptEmit
pub mod TraceHash
mod Tests
