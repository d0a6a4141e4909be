-- ===== src/Ternary/TransferFinalize.antt =====
-- ternary_vm/src/primitives/transfer_finalize.rs: the next nonce, by the carry that eight byte
-- additions hand on. The nonce is a little-endian array.
use transformer_vm_bank.Base.{
  ℕ, ◌+◌, ◌*◌, ◌/◌, ◌%◌, ◌^◌, ◌≤◌, ◌≡◌, refl, ap, ◌∙◌, [], ◌∷◌, arith, length, Result, ok, ◌>>=◌,
}
use transformer_vm_bank.Bytes.{Bytes, AreBytes, from_le_bytes, to_le_bytes}
use transformer_vm_bank.Bytes.Encode.{to_le_bytes-wrap}
use transformer_vm_bank.Crypto.{Crypto}
use transformer_vm_bank.Ternary.ByteAdd
use transformer_vm_bank.Ternary.ByteAdd.Correct.{run-adds}
use transformer_vm_bank.Ternary.Errors.{Failure}
use transformer_vm_bank.Ternary.Network.{TernaryNetwork}

unfoldable pub build : Crypto → Result Failure TernaryNetwork
build c = ByteAdd.build c

-- The loop from the given carry on, over the bytes that are left; the last carry is discarded.
unfoldable pub increment_from : TernaryNetwork → ℕ → Bytes → Result Failure Bytes
increment_from byte_add_net carry [] = ok []
increment_from byte_add_net carry (x ∷ nonce) = do
  step ← ByteAdd.run byte_add_net x 0 carry
  rest ← increment_from byte_add_net step.1 nonce
  ok (step.0 ∷ rest)

unfoldable pub run : TernaryNetwork → Bytes → Result Failure Bytes
run byte_add_net nonce = increment_from byte_add_net 1 nonce

increment_from-adds :
    (net : TernaryNetwork) (nonce : Bytes) (carry : ℕ)
    → net.layers ≡ ByteAdd.build_layers
    → AreBytes nonce
    → carry ≤ 1
    → increment_from net carry nonce ≡ ok (to_le_bytes (length nonce) (from_le_bytes nonce + carry))
unfolding increment_from from_le_bytes to_le_bytes
increment_from-adds net [] carry built h hc = refl
increment_from-adds net (x ∷ nonce) carry built h hc =
    let step = run-adds net x 0 carry built h.0 (omega arith) hc in
    let rest =
      increment_from-adds net nonce ((x + 0 + carry) / 256) built h.1 (omega (arith, h.0)) in
    let low : (x + 0 + carry) % 256 ≡ (x + 256 * from_le_bytes nonce + carry) % 256 = omega arith in
    let high : from_le_bytes nonce + (x + 0 + carry) / 256
        ≡ (x + 256 * from_le_bytes nonce + carry) / 256 =
      omega arith in
    rw (step, rest, low, high) refl

-- The result is the nonce plus one, wrapped around at the width of the array, in the same bytes.
pub run-increments :
    (net : TernaryNetwork) (nonce : Bytes)
    → net.layers ≡ ByteAdd.build_layers
    → AreBytes nonce
    → run net nonce
      ≡ ok (to_le_bytes (length nonce) ((from_le_bytes nonce + 1) % 256 ^ length nonce))
unfolding run
run-increments net nonce built h =
    increment_from-adds net nonce 1 built h (omega arith)
    ∙ ap ok (to_le_bytes-wrap (length nonce) (from_le_bytes nonce + 1))
