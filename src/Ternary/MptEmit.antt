-- ===== src/Ternary/MptEmit.antt =====
-- ternary_vm/src/primitives/mpt_emit_record.rs: the network that passes a record of 64 bytes on.
pub mod Correct
use transformer_vm_bank.Base.{
  ℕ, ◌+◌, ◌*◌, ◌%◌, Bool, true, false, List, [], ◌∷◌, map, ◌==◌, length, replicate, range, Result,
  ok, err, ◌>>=◌, ◌>>◌, require,
}
use transformer_vm_bank.Bytes.{Bytes, as_bytes}
use transformer_vm_bank.Crypto.{Crypto}
use transformer_vm_bank.Int.{ℤ, pos, negsuc, pos_part}
use transformer_vm_bank.Ternary.Errors.{Failure, returned, output_decode}
use transformer_vm_bank.Ternary.Network.{SparseTernaryLayer, TernaryNetwork, index, forward, within}
use transformer_vm_bank.Ternary.Thermo.{encode_bytes}
use transformer_vm_bank.Ternary.Weights.{build_network}

abbrev pub record_len : ℕ
record_len = 64

abbrev pub input_dim : ℕ
input_dim = 16384

unfoldable pub build_layer1 : SparseTernaryLayer
build_layer1 = record {
  input_dim = input_dim;
  output_dim = record_len;
  pos_indices = map (λ i. range (i * 256) 256) (range 0 record_len);
  neg_indices = map (λ i. []) (range 0 record_len);
  bias = replicate record_len (negsuc 0);
  relu = false;
}

unfoldable pub build_layers : List SparseTernaryLayer
build_layers = build_layer1 ∷ []

unfoldable pub build : Crypto → Result Failure TernaryNetwork
build c = build_network c (as_bytes "mpt_emit_record") input_dim record_len build_layers

-- The record is an array of 64 bytes.
unfoldable pub encode_input : Bytes → List ℤ
encode_input record' = encode_bytes record'

-- The loop over the outputs: each must be a byte.
unfoldable pub decode_bytes : List ℤ → Result Failure Bytes
decode_bytes [] = ok []
decode_bytes (b ∷ out) = do
  require (within 255 b) (returned output_decode)
  rest ← decode_bytes out
  ok (pos_part b % 256 ∷ rest)

unfoldable pub decode_output : List ℤ → Result Failure Bytes
decode_output out = do require (length out == record_len) (returned output_decode); decode_bytes out

unfoldable pub run : TernaryNetwork → Bytes → Result Failure Bytes
run net record' = do output ← forward net (encode_input record'); decode_output output
