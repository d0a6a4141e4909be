-- ===== src/Ternary/FreezeSetup.antt =====
-- ternary_vm/src/primitives/freeze_setup.rs: the network that reads the flag and byte 47 off a
-- witness of a flag and 64 bytes.
pub mod Correct
use transformer_vm_bank.Base.{
  ℕ, ◌+◌, ◌%◌, Bool, true, false, List, [], ◌∷◌, ◌++◌, ltb, ◌==◌, length, drop, range, get_or,
  Result, ok, err, ◌>>=◌, ◌>>◌, require, refuse_if,
}
use transformer_vm_bank.Bytes.{Bytes, as_bytes}
use transformer_vm_bank.Crypto.{Crypto}
use transformer_vm_bank.Int.{ℤ, pos, negsuc, pos_part}
use transformer_vm_bank.Ternary.Errors.{Failure, returned, input_range, output_decode}
use transformer_vm_bank.Ternary.Network.{SparseTernaryLayer, TernaryNetwork, index, forward, within}
use transformer_vm_bank.Ternary.Thermo.{encode_bytes, encode}
use transformer_vm_bank.Ternary.Weights.{build_network}

abbrev pub input_dim : ℕ
input_dim = 16386

abbrev pub output_dim : ℕ
output_dim = 2

-- 12034 is 2 + 47 · 256.
unfoldable pub build_layer1 : SparseTernaryLayer
build_layer1 = record {
  input_dim = input_dim;
  output_dim = output_dim;
  pos_indices = (1 ∷ []) ∷ range 12034 256 ∷ [];
  neg_indices = [] ∷ [] ∷ [];
  bias = pos 0 ∷ negsuc 0 ∷ [];
  relu = false;
}

unfoldable pub build_layers : List SparseTernaryLayer
build_layers = build_layer1 ∷ []

unfoldable pub build : Crypto → Result Failure TernaryNetwork
build c = build_network c (as_bytes "freeze_setup") input_dim output_dim build_layers

-- The witness is an array of 65 bytes.
unfoldable pub encode_input : Bytes → Result Failure (List ℤ)
encode_input witness = do
  let flag = get_or witness 0 0
  refuse_if (ltb 1 flag) (returned (input_range (pos flag) (pos 1)))
  ok (encode (pos flag) 1 ++ encode_bytes (drop 1 witness))

unfoldable pub decode_output : List ℤ → Result Failure (ℕ × ℕ)
decode_output out = do
  require (length out == output_dim) (returned output_decode)
  flag ← index out 0
  byte47 ← index out 1
  require (within 1 flag) (returned output_decode)
  require (within 255 byte47) (returned output_decode)
  ok (pos_part flag % 256, pos_part byte47 % 256)

unfoldable pub run : TernaryNetwork → Bytes → Result Failure (ℕ × ℕ)
run net witness = do input ← encode_input witness; output ← forward net input; decode_output output
