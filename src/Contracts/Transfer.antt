-- ===== src/Contracts/Transfer.antt =====
-- agent_contracts/src/transfer.rs: the transfer contract. Its input is two balances, an amount and a
-- nonce, its output the balances and the nonce after the transfer, or zeros.
use transformer_vm_bank.Base.{ℕ, ◌==◌, length, Result, ◌>>◌, require}
use transformer_vm_bank.Bytes.{Bytes, as_bytes}
use transformer_vm_bank.Bytes.Slice.{slice}
use transformer_vm_bank.Contracts.Errors.{ContractError, input_shape}
use transformer_vm_bank.Contracts.Guarded.{wrapped_transfer}
use transformer_vm_bank.Contracts.Standard.{StandardContract, build_contract}
use transformer_vm_bank.Crypto.{Crypto}
use transformer_vm_bank.Ternary.Errors.{Failure}

abbrev pub input_len : ℕ
input_len = 56

unfoldable pub build : Crypto → Result Failure StandardContract
build c = build_contract c (as_bytes "transfer")

unfoldable pub run : StandardContract → Bytes → Result ContractError Bytes
run contract input = do
  require (length input == input_len) (input_shape (length input) input_len)
  wrapped_transfer contract.byte_add contract.byte_sub (slice 0 16 input) (slice 16 16 input)
      (slice 32 16 input) (slice 48 8 input)
