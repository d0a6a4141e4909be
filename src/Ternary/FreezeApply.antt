-- ===== src/Ternary/FreezeApply.antt =====
-- ternary_vm/src/primitives/freeze_apply.rs: the network that puts a flag into the top bit of a
-- byte.
pub mod Input
pub mod Correct
use transformer_vm_bank.Base.{
  ℕ, ◌+◌, ◌*◌, ◌%◌, Bool, true, false, List, [], ◌∷◌, ◌++◌, map, ltb, leb, ◌==◌, length, replicate,
  range, Result, ok, err, ◌>>=◌, ◌>>◌, require, refuse_if,
}
use transformer_vm_bank.Bytes.{as_bytes}
use transformer_vm_bank.Crypto.{Crypto}
use transformer_vm_bank.Int.{ℤ, pos, negsuc, pos_part}
use transformer_vm_bank.Ternary.Errors.{Failure, returned, input_range, output_decode}
use transformer_vm_bank.Ternary.Network.{SparseTernaryLayer, TernaryNetwork, index, forward, within}
use transformer_vm_bank.Ternary.Thermo
use transformer_vm_bank.Ternary.Weights.{build_network}

abbrev pub input_dim : ℕ
input_dim = 258

abbrev pub output_dim : ℕ
output_dim = 2

-- Input index 2 is the first entry of the byte's thermometer, 130 its entry 128.
unfoldable pub build_layer1 : SparseTernaryLayer
build_layer1 = record {
  input_dim = input_dim;
  output_dim = 257;
  pos_indices =
      map (λ k. (2 + k) ∷ []) (range 0 128)
      ++ (map (λ k. (2 + k) ∷ []) (range 128 128) ++ (1 ∷ []) ∷ []);
  neg_indices =
      map (λ k. (2 + k + 128) ∷ 130 ∷ []) (range 0 128)
      ++ (map (λ k. []) (range 128 128) ++ [] ∷ []);
  bias = replicate 257 (pos 0);
  relu = true;
}

unfoldable pub build_layer2 : SparseTernaryLayer
build_layer2 = record {
  input_dim = 257;
  output_dim = output_dim;
  pos_indices = (range 0 128 ++ range 128 128) ∷ (256 ∷ []) ∷ [];
  neg_indices = [] ∷ [] ∷ [];
  bias = negsuc 0 ∷ pos 0 ∷ [];
  relu = false;
}

unfoldable pub build_layers : List SparseTernaryLayer
build_layers = build_layer1 ∷ build_layer2 ∷ []

unfoldable pub build : Crypto → Result Failure TernaryNetwork
build c = build_network c (as_bytes "freeze_apply") input_dim output_dim build_layers

unfoldable pub encode_input : (flag byte47 : ℕ) → Result Failure (List ℤ)
encode_input flag byte47 = do
  refuse_if (ltb 1 flag) (returned (input_range (pos flag) (pos 1)))
  ok (Thermo.encode (pos flag) 1 ++ Thermo.encode (pos byte47) 255)

unfoldable pub decode_output : List ℤ → Result Failure ℕ
decode_output out = do
  require (length out == output_dim) (returned output_decode)
  low7 ← index out 0
  flag ← index out 1
  require (within 127 low7) (returned output_decode)
  require (within 1 flag) (returned output_decode)
  ok ((pos_part low7 + 128 * pos_part flag) % 256)

unfoldable pub run : TernaryNetwork → (flag byte47 : ℕ) → Result Failure ℕ
run net flag byte47 = do
  input ← encode_input flag byte47
  output ← forward net input
  decode_output output
