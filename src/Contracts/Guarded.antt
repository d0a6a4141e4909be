-- ===== src/Contracts/Guarded.antt =====
-- agent_contracts/src/guarded.rs: arithmetic on u128 by chains of byte operations, and the transfer
-- that the guarded contracts wrap. Balances and amounts are little-endian arrays of 16 bytes.
pub mod Correct
use transformer_vm_bank.Base.{
  ℕ, Bool, List, [], ◌∷◌, ◌++◌, not, ◌==◌, if◌then◌else◌, replicate, Result, ok, err, ◌>>=◌,
}
use transformer_vm_bank.Bytes.{Bytes}
use transformer_vm_bank.Contracts.Errors.{ContractError, primitive, from_primitive}
use transformer_vm_bank.Ternary.ByteAdd
use transformer_vm_bank.Ternary.ByteSub
use transformer_vm_bank.Ternary.Errors.{index_out_of_bounds}
use transformer_vm_bank.Ternary.Network.{TernaryNetwork}
use transformer_vm_bank.Ternary.TransferCheck
use transformer_vm_bank.Ternary.TransferFinalize

-- The loop from the given borrow on, over the bytes that are left.
unfoldable pub sub_chain_from :
    TernaryNetwork → ℕ → (a b : Bytes) → Result ContractError (Bytes × ℕ)
sub_chain_from byte_sub borrow [] [] = ok ([], borrow)
sub_chain_from byte_sub borrow [] (y ∷ b) = err (primitive index_out_of_bounds)
sub_chain_from byte_sub borrow (x ∷ a) [] = err (primitive index_out_of_bounds)
sub_chain_from byte_sub borrow (x ∷ a) (y ∷ b) = do
  step ← from_primitive (ByteSub.run byte_sub x y borrow)
  rest ← sub_chain_from byte_sub step.1 a b
  ok (step.0 ∷ rest.0, rest.1)

unfoldable pub u128_sub_chain : TernaryNetwork → (a b : Bytes) → Result ContractError (Bytes × ℕ)
u128_sub_chain byte_sub a b = sub_chain_from byte_sub 0 a b

unfoldable pub add_chain_from :
    TernaryNetwork → ℕ → (a b : Bytes) → Result ContractError (Bytes × ℕ)
add_chain_from byte_add carry [] [] = ok ([], carry)
add_chain_from byte_add carry [] (y ∷ b) = err (primitive index_out_of_bounds)
add_chain_from byte_add carry (x ∷ a) [] = err (primitive index_out_of_bounds)
add_chain_from byte_add carry (x ∷ a) (y ∷ b) = do
  step ← from_primitive (ByteAdd.run byte_add x y carry)
  rest ← add_chain_from byte_add step.1 a b
  ok (step.0 ∷ rest.0, rest.1)

unfoldable pub u128_add_chain : TernaryNetwork → (a b : Bytes) → Result ContractError (Bytes × ℕ)
u128_add_chain byte_add a b = add_chain_from byte_add 0 a b

unfoldable pub u64_ge : TernaryNetwork → (a b : Bytes) → Result ContractError ℕ
u64_ge byte_sub a b =
    from_primitive (TransferCheck.run byte_sub (a ++ replicate 8 0) (b ++ replicate 8 0))

unfoldable pub no_op_output : ℕ → Bytes
no_op_output len = replicate len 0

unfoldable pub wrapped_transfer :
    (byte_add byte_sub : TernaryNetwork)
    → (from_balance to_balance amount nonce : Bytes) → Result ContractError Bytes
wrapped_transfer byte_add byte_sub from_balance to_balance amount nonce = do
  covered ← from_primitive (TransferCheck.run byte_sub from_balance amount)
  if not (covered == 1) then ok (no_op_output 40) else do
    new_from ← u128_sub_chain byte_sub from_balance amount
    new_to ← u128_add_chain byte_add to_balance amount
    if new_to.1 == 1 then ok (no_op_output 40) else do
      new_nonce ← from_primitive (TransferFinalize.run byte_add nonce)
      ok (new_from.0 ++ (new_to.0 ++ new_nonce))
