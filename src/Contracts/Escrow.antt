-- ===== src/Contracts/Escrow.antt =====
-- agent_contracts/src/escrow.rs: a transfer into escrow, and the two transfers out of it that a
-- flag in the input allows.
use transformer_vm_bank.Base.{not, ◌==◌, if◌then◌else◌, length, get_or, Result, ok, ◌>>◌, require}
use transformer_vm_bank.Bytes.{Bytes, as_bytes}
use transformer_vm_bank.Bytes.Slice.{slice}
use transformer_vm_bank.Contracts.Errors.{ContractError, input_shape}
use transformer_vm_bank.Contracts.Guarded.{no_op_output, wrapped_transfer}
use transformer_vm_bank.Contracts.Standard.{StandardContract, build_contract}
use transformer_vm_bank.Crypto.{Crypto}
use transformer_vm_bank.Ternary.Errors.{Failure}

unfoldable pub build_create : Crypto → Result Failure StandardContract
build_create c = build_contract c (as_bytes "escrow_create")

unfoldable pub build_release : Crypto → Result Failure StandardContract
build_release c = build_contract c (as_bytes "escrow_release")

unfoldable pub build_refund : Crypto → Result Failure StandardContract
build_refund c = build_contract c (as_bytes "escrow_refund")

unfoldable pub run_create : StandardContract → Bytes → Result ContractError Bytes
run_create contract input = do
  require (length input == 56) (input_shape (length input) 56)
  wrapped_transfer contract.byte_add contract.byte_sub (slice 0 16 input) (slice 16 16 input)
      (slice 32 16 input) (slice 48 8 input)

unfoldable pub run_release : StandardContract → Bytes → Result ContractError Bytes
run_release contract input = do
  require (length input == 57) (input_shape (length input) 57)
  let release_flag = get_or input 48 0
  if not (release_flag == 1)
      then ok (no_op_output 40)
      else wrapped_transfer contract.byte_add contract.byte_sub (slice 0 16 input)
          (slice 16 16 input) (slice 32 16 input) (slice 49 8 input)

unfoldable pub run_refund : StandardContract → Bytes → Result ContractError Bytes
run_refund contract input = do
  require (length input == 57) (input_shape (length input) 57)
  let refund_flag = get_or input 48 0
  if not (refund_flag == 1)
      then ok (no_op_output 40)
      else wrapped_transfer contract.byte_add contract.byte_sub (slice 0 16 input)
          (slice 16 16 input) (slice 32 16 input) (slice 49 8 input)
