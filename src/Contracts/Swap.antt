-- ===== src/Contracts/Swap.antt =====
-- agent_contracts/src/swap.rs: an exchange of two assets between a sender and a recipient. Its
-- private chains of byte operations have the text of those in guarded.rs.
pub mod Correct
use transformer_vm_bank.Base.{
  ℕ, not, ◌||◌, ◌==◌, ◌++◌, if◌then◌else◌, length, replicate, Result, ok, ◌>>=◌, ◌>>◌, require,
}
use transformer_vm_bank.Bytes.{Bytes, as_bytes}
use transformer_vm_bank.Bytes.Slice.{slice}
use transformer_vm_bank.Contracts.Errors.{ContractError, input_shape, from_primitive}
use transformer_vm_bank.Contracts.Guarded.{u128_sub_chain, u128_add_chain}
use transformer_vm_bank.Contracts.Standard.{StandardContract, build_contract}
use transformer_vm_bank.Crypto.{Crypto}
use transformer_vm_bank.Ternary.Errors.{Failure}
use transformer_vm_bank.Ternary.TransferCheck
use transformer_vm_bank.Ternary.TransferFinalize

abbrev pub input_len : ℕ
input_len = 104

abbrev pub output_len : ℕ
output_len = 72

unfoldable pub build : Crypto → Result Failure StandardContract
build c = build_contract c (as_bytes "swap")

-- What `run` does once both preconditions hold.
unfoldable pub exchange : StandardContract → Bytes → Result ContractError Bytes
exchange contract input = do
  let sender_in = slice 0 16 input
  let sender_out = slice 16 16 input
  let recipient_in = slice 32 16 input
  let recipient_out = slice 48 16 input
  let amount_in = slice 64 16 input
  let amount_out = slice 80 16 input
  let sender_nonce = slice 96 8 input
  new_sender_in ← u128_sub_chain contract.byte_sub sender_in amount_in
  new_sender_out ← u128_add_chain contract.byte_add sender_out amount_out
  new_recipient_in ← u128_add_chain contract.byte_add recipient_in amount_in
  new_recipient_out ← u128_sub_chain contract.byte_sub recipient_out amount_out
  if new_sender_out.1 == 1 || new_recipient_in.1 == 1 then ok (replicate output_len 0) else do
    new_sender_nonce ← from_primitive (TransferFinalize.run contract.byte_add sender_nonce)
    ok (
        new_sender_in.0
        ++ (new_sender_out.0 ++ (new_recipient_in.0 ++ (new_recipient_out.0 ++ new_sender_nonce))))

-- The second precondition is not run when the first fails.
unfoldable pub run : StandardContract → Bytes → Result ContractError Bytes
run contract input = do
  require (length input == input_len) (input_shape (length input) input_len)
  first ←
      from_primitive (TransferCheck.run contract.byte_sub (slice 0 16 input) (slice 64 16 input))
  if not (first == 1) then ok (replicate output_len 0) else do
    second ←
        from_primitive (TransferCheck.run contract.byte_sub (slice 48 16 input) (slice 80 16 input))
    if not (second == 1) then ok (replicate output_len 0) else exchange contract input
