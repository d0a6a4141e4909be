-- ===== src/Ternary/TransferCheck.antt =====
-- ternary_vm/src/primitives/transfer_check.rs: whether a balance covers an amount, by the borrow
-- that sixteen byte subtractions hand on. Both numbers are little-endian arrays.
use transformer_vm_bank.Base.{
  ℕ, ◌+◌, ◌-◌, ◌≤◌, ◌≡◌, [], ◌∷◌, arith, ltb, leb, if◌then◌else◌, length, Result, ok, err, ◌>>=◌,
}
use transformer_vm_bank.Bytes.{Bytes, AreBytes, from_le_bytes}
use transformer_vm_bank.Crypto.{Crypto}
use transformer_vm_bank.Ternary.ByteSub
use transformer_vm_bank.Ternary.ByteSub.Correct.{run-subtracts}
use transformer_vm_bank.Ternary.Errors.{Failure, index_out_of_bounds}
use transformer_vm_bank.Ternary.Network.{TernaryNetwork}

unfoldable pub build : Crypto → Result Failure TernaryNetwork
build c = ByteSub.build c

-- The loop from the given borrow on, over the bytes that are left.
unfoldable pub check_from : TernaryNetwork → ℕ → Bytes → Bytes → Result Failure ℕ
check_from byte_sub_net borrow [] [] = ok borrow
check_from byte_sub_net borrow [] (y ∷ amount) = err index_out_of_bounds
check_from byte_sub_net borrow (x ∷ from) [] = err index_out_of_bounds
check_from byte_sub_net borrow (x ∷ from) (y ∷ amount) = do
  step ← ByteSub.run byte_sub_net x y borrow
  check_from byte_sub_net step.1 from amount

unfoldable pub run : TernaryNetwork → (from amount : Bytes) → Result Failure ℕ
run byte_sub_net from amount = do borrow ← check_from byte_sub_net 0 from amount; ok (1 - borrow)

pub check_from-compares :
    (net : TernaryNetwork) (from amount : Bytes) (borrow : ℕ)
    → net.layers ≡ ByteSub.build_layers
    → AreBytes from
    → AreBytes amount
    → length from ≡ length amount
    → borrow ≤ 1
    → check_from net borrow from amount
      ≡ ok (if ltb (from_le_bytes from) (from_le_bytes amount + borrow) then 1 else 0)
unfolding check_from from_le_bytes
check_from-compares net [] [] borrow built hf ha len hb = ground arith
check_from-compares net [] (y ∷ amount) borrow built hf ha len hb = absurd (omega arith)
check_from-compares net (x ∷ from) [] borrow built hf ha len hb = absurd (omega arith)
check_from-compares net (x ∷ from) (y ∷ amount) borrow built hf ha len hb =
    let step = run-subtracts net x y borrow built hf.0 ha.0 hb in
    let next = if ltb x (y + borrow) then 1 else 0 in
    let rest =
      check_from-compares net from amount next built hf.1 ha.1 (omega arith) (ground arith) in
    rw (step, rest) (ground (arith, hf.0, ha.0))

-- On arrays of the same length the answer is 1 when the balance is at least the amount as
-- little-endian numbers, and 0 otherwise.
pub run-compares :
    (net : TernaryNetwork) (from amount : Bytes)
    → net.layers ≡ ByteSub.build_layers
    → AreBytes from
    → AreBytes amount
    → length from ≡ length amount
    → run net from amount ≡ ok (if leb (from_le_bytes amount) (from_le_bytes from) then 1 else 0)
unfolding run
run-compares net from amount built hf ha len =
    rw (check_from-compares net from amount 0 built hf ha len (omega arith)) (ground arith)
