-- ===== src/Contracts/Conditional.antt =====
-- agent_contracts/src/conditional.rs: transfers that a time, two signature flags of three or a
-- condition flag in the input allows.
use transformer_vm_bank.Base.{
  ◌+◌, not, ◌||◌, ◌==◌, ltb, if◌then◌else◌, length, get_or, Result, ok, ◌>>=◌, ◌>>◌, require,
}
use transformer_vm_bank.Bytes.{Bytes, as_bytes}
use transformer_vm_bank.Bytes.Slice.{slice}
use transformer_vm_bank.Contracts.Errors.{ContractError, input_shape}
use transformer_vm_bank.Contracts.Guarded.{no_op_output, u64_ge, wrapped_transfer}
use transformer_vm_bank.Contracts.Standard.{StandardContract, build_contract}
use transformer_vm_bank.Crypto.{Crypto}
use transformer_vm_bank.Ternary.Errors.{Failure}

unfoldable pub build_time_locked : Crypto → Result Failure StandardContract
build_time_locked c = build_contract c (as_bytes "time_locked_release")

unfoldable pub build_multisig : Crypto → Result Failure StandardContract
build_multisig c = build_contract c (as_bytes "multisig_2of3")

unfoldable pub build_conditional : Crypto → Result Failure StandardContract
build_conditional c = build_contract c (as_bytes "conditional_payment")

unfoldable pub run_time_locked : StandardContract → Bytes → Result ContractError Bytes
run_time_locked contract input = do
  require (length input == 72) (input_shape (length input) 72)
  unlocked ← u64_ge contract.byte_sub (slice 56 8 input) (slice 64 8 input)
  if not (unlocked == 1)
      then ok (no_op_output 40)
      else wrapped_transfer contract.byte_add contract.byte_sub (slice 0 16 input)
          (slice 16 16 input) (slice 32 16 input) (slice 48 8 input)

unfoldable pub run_multisig : StandardContract → Bytes → Result ContractError Bytes
run_multisig contract input = do
  require (length input == 59) (input_shape (length input) 59)
  let s0 = get_or input 56 0
  let s1 = get_or input 57 0
  let s2 = get_or input 58 0
  if ltb 1 s0 || (ltb 1 s1 || ltb 1 s2)
      then ok (no_op_output 40)
      else if ltb (s0 + s1 + s2) 2
      then ok (no_op_output 40)
      else wrapped_transfer contract.byte_add contract.byte_sub (slice 0 16 input)
          (slice 16 16 input) (slice 32 16 input) (slice 48 8 input)

unfoldable pub run_conditional : StandardContract → Bytes → Result ContractError Bytes
run_conditional contract input = do
  require (length input == 57) (input_shape (length input) 57)
  let cond = get_or input 56 0
  if not (cond == 1)
      then ok (no_op_output 40)
      else wrapped_transfer contract.byte_add contract.byte_sub (slice 0 16 input)
          (slice 16 16 input) (slice 32 16 input) (slice 48 8 input)
