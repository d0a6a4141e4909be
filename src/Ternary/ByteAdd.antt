-- ===== src/Ternary/ByteAdd.antt =====
-- ternary_vm/src/primitives/byte_add_with_carry.rs: the network that adds two bytes and a carry.
pub mod Correct
use transformer_vm_bank.Base.{
  ℕ, ◌+◌, ◌*◌, ◌%◌, Bool, true, false, List, [], ◌∷◌, ◌++◌, map, ltb, leb, ◌==◌, length, take,
  replicate, range, Result, ok, err, ◌>>=◌, ◌>>◌, require, refuse_if,
}
use transformer_vm_bank.Bytes.{as_bytes}
use transformer_vm_bank.Crypto.{Crypto}
use transformer_vm_bank.Int.{ℤ, pos, negsuc, pos_part, ltb_ℤ}
use transformer_vm_bank.Ternary.Errors.{TernaryError, Failure, returned, input_range, output_decode}
use transformer_vm_bank.Ternary.Network.{SparseTernaryLayer, TernaryNetwork, index, forward, argmax}
use transformer_vm_bank.Ternary.Parallel.{parallel_relu, thermo_decode}
use transformer_vm_bank.Ternary.Thermo
use transformer_vm_bank.Ternary.Weights.{build_network}

abbrev pub thermo_len : ℕ
thermo_len = 513

abbrev pub input_dim : ℕ
input_dim = 514

abbrev pub output_dim : ℕ
output_dim = 257

unfoldable pub build_layer1_total : SparseTernaryLayer
build_layer1_total = record {
  input_dim = input_dim;
  output_dim = 1;
  pos_indices = range 0 input_dim ∷ [];
  neg_indices = [] ∷ [];
  bias = negsuc 2 ∷ [];
  relu = false;
}

unfoldable pub build_layer2_parallel_relu : SparseTernaryLayer
build_layer2_parallel_relu = parallel_relu thermo_len

unfoldable pub build_layer3_thermo_decode : SparseTernaryLayer
build_layer3_thermo_decode = thermo_decode thermo_len

unfoldable pub build_layer4_projection : SparseTernaryLayer
build_layer4_projection = record {
  input_dim = thermo_len;
  output_dim = output_dim;
  pos_indices = map (λ k. k ∷ (k + 256) ∷ []) (range 0 256) ++ (256 ∷ []) ∷ [];
  neg_indices = map (λ k. (k + 1) ∷ (k + 257) ∷ []) (range 0 256) ++ [] ∷ [];
  bias = replicate output_dim (pos 0);
  relu = false;
}

unfoldable pub build_layers : List SparseTernaryLayer
build_layers =
    build_layer1_total ∷ build_layer2_parallel_relu ∷ build_layer3_thermo_decode
    ∷ build_layer4_projection ∷ []

unfoldable pub build : Crypto → Result Failure TernaryNetwork
build c = build_network c (as_bytes "byte_add_with_carry") input_dim output_dim build_layers

unfoldable pub encode_input : (a b c : ℕ) → Result Failure (List ℤ)
encode_input a b c = do
  refuse_if (ltb 1 c) (returned (input_range (pos c) (pos 1)))
  ok (Thermo.encode (pos a) 255 ++ (Thermo.encode (pos b) 255 ++ Thermo.encode (pos c) 1))

-- A slice `out[..n]` and the test `(0..=1).contains(&v)`.
unfoldable pub is_bit : ℤ → Bool
is_bit (pos n) = leb n 1
is_bit (negsuc n) = false

unfoldable pub decode_output : List ℤ → Result Failure (ℕ × ℕ)
decode_output out = do
  require (length out == output_dim) (returned output_decode)
  sum_byte ← argmax (take 256 out)
  carry ← index out 256
  require (is_bit carry) (returned output_decode)
  ok (sum_byte % 256, pos_part carry % 256)

unfoldable pub run : TernaryNetwork → (a b c : ℕ) → Result Failure (ℕ × ℕ)
run net a b c = do input ← encode_input a b c; output ← forward net input; decode_output output
