-- ===== src/Ternary/Weights.antt =====
-- ternary_vm/src/weights.rs: the packed form of a network's weights and its two digests.
pub mod Total
pub mod Unpack
pub mod Reads
pub mod Layers
pub mod RoundTrip
use transformer_vm_bank.Base.{
  ℕ, zero, suc, ◌+◌, ◌-◌, ◌^◌, ◌%◌, Bool, true, false, Option, none, some, List, [], ◌∷◌, ◌++◌,
  arith, ltb, if◌then◌else◌, length, take, replicate, Result, ok, err, ◌>>=◌, ok_or,
}
use transformer_vm_bank.Bytes.{Bytes, as_bytes, to_be_bytes}
use transformer_vm_bank.Crypto.{Crypto}
use transformer_vm_bank.Int.{ℤ, pos, negsuc, checked_add_u32}
use transformer_vm_bank.Ternary.Errors.{Failure, panicked}
use transformer_vm_bank.Ternary.Network.{
  SparseTernaryLayer, WeightsHeader, TernaryNetwork, total_length,
}

abbrev pub magic : Bytes
magic = as_bytes "TVMW0001"

-- `i64::to_be_bytes`: two's complement.
unfoldable pub i64_bits : ℤ → ℕ
i64_bits (pos n) = n
i64_bits (negsuc n) = 2 ^ 64 - 1 - n

-- The row offsets, from `ptr` on; `expect("ptr overflow")` panics.
unfoldable pub pack_offsets : ℕ → List (List ℕ) → Result Failure Bytes
pack_offsets ptr [] = ok (to_be_bytes 4 ptr)
pack_offsets ptr (row ∷ rows) = do
  next ← ok_or (checked_add_u32 ptr (length row % 2 ^ 32)) panicked
  rest ← pack_offsets next rows
  ok (to_be_bytes 4 ptr ++ rest)

unfoldable pub pack_row : List ℕ → Bytes
pack_row [] = []
pack_row (c ∷ row) = to_be_bytes 4 c ++ pack_row row

unfoldable pub pack_columns : List (List ℕ) → Bytes
pack_columns [] = []
pack_columns (row ∷ rows) = pack_row row ++ pack_columns rows

unfoldable pub pack_bias : List ℤ → Bytes
pack_bias [] = []
pack_bias (b ∷ bias) = to_be_bytes 8 (i64_bits b) ++ pack_bias bias

unfoldable pub pack_layer : SparseTernaryLayer → Result Failure Bytes
pack_layer layer = do
  pos_offsets ← pack_offsets 0 layer.pos_indices
  neg_offsets ← pack_offsets 0 layer.neg_indices
  ok (
      to_be_bytes 4 (layer.input_dim % 2 ^ 32)
      ++ (to_be_bytes 4 (layer.output_dim % 2 ^ 32)
          ++ ((if layer.relu then 1 else 0)
              ∷ (to_be_bytes 8 (total_length layer.pos_indices)
                  ++ (to_be_bytes 8 (total_length layer.neg_indices)
                      ++ (pos_offsets
                          ++ (pack_columns layer.pos_indices
                              ++ (neg_offsets
                                  ++ (pack_columns layer.neg_indices
                                      ++ pack_bias layer.bias)))))))))

unfoldable pub pack_layers : List SparseTernaryLayer → Result Failure Bytes
pack_layers [] = ok []
pack_layers (layer ∷ layers) = do
  first ← pack_layer layer
  rest ← pack_layers layers
  ok (first ++ rest)

-- The stream before its digest.
unfoldable pub pack_payload :
    Bytes → (input_dim output_dim : ℕ) → List SparseTernaryLayer → Result Failure Bytes
pack_payload primitive input_dim output_dim layers = do
  packed ← pack_layers layers
  ok (
      magic
      ++ (to_be_bytes 4 1
          ++ (to_be_bytes 2 (length primitive % 2 ^ 16)
              ++ (primitive
                  ++ (to_be_bytes 4 input_dim
                      ++ (to_be_bytes 4 output_dim
                          ++ (to_be_bytes 4 (length layers % 2 ^ 32) ++ packed)))))))

unfoldable pub pack_weights :
    Crypto
    → Bytes
    → (input_dim output_dim : ℕ) → List SparseTernaryLayer
    → Result Failure (Bytes × Bytes)
pack_weights c primitive input_dim output_dim layers = do
  payload ← pack_payload primitive input_dim output_dim layers
  ok (payload ++ c.blake3 payload, c.blake3 payload)

unfoldable pub weights_hash_v2 : Crypto → Bytes → Bytes
weights_hash_v2 c packed =
    if ltb (length packed) 32
    then replicate 64 0
    else c.blake3_512 (take (length packed - 32) packed)

unfoldable pub pack_weights_dual :
    Crypto
    → Bytes
    → (input_dim output_dim : ℕ) → List SparseTernaryLayer
    → Result Failure (Bytes × Bytes × Bytes)
pack_weights_dual c primitive input_dim output_dim layers = do
  packed ← pack_weights c primitive input_dim output_dim layers
  ok (packed.0, packed.1, weights_hash_v2 c packed.0)

-- What the header of a network that `build` makes is filled with.
unfoldable pub build_header :
    Crypto
    → Bytes
    → (input_dim output_dim : ℕ) → List SparseTernaryLayer
    → Result Failure WeightsHeader
build_header c primitive input_dim output_dim layers = do
  packed ← pack_weights_dual c primitive input_dim output_dim layers
  ok record {
    version = 1;
    primitive = primitive;
    input_dim = input_dim;
    output_dim = output_dim;
    weights_hash = packed.1;
    weights_hash_v2 = packed.2;
  }

-- The last lines of the `build` functions: the header, then `TernaryNetwork::new`.
unfoldable pub build_network :
    Crypto
    → Bytes
    → (input_dim output_dim : ℕ) → List SparseTernaryLayer
    → Result Failure TernaryNetwork
build_network c primitive input_dim output_dim layers = do
  header ← build_header c primitive input_dim output_dim layers
  ok record { header = header; layers = layers }
