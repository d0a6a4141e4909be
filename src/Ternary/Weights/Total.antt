-- ===== src/Ternary/Weights/Total.antt =====
-- Packing a network of fewer than 2^32 weights of either sign in each layer does not panic.
use transformer_vm_bank.Base.{
  ℕ, ◌+◌, ◌%◌, ◌^◌, ◌<◌, ◌≡◌, refl, some, List, [], ◌∷◌, arith, length, All, ok, Returns,
  Returns-bind,
}
use transformer_vm_bank.Bytes.{Bytes}
use transformer_vm_bank.Crypto.{Crypto}
use transformer_vm_bank.Int.{checked_add_u32}
use transformer_vm_bank.Ternary.Network.{SparseTernaryLayer, TernaryNetwork, total_length}
use transformer_vm_bank.Ternary.Weights.{
  pack_offsets, pack_layer, pack_layers, pack_payload, pack_weights, pack_weights_dual,
  build_header, build_network,
}

-- A layer whose offsets fit a u32.
abbrev pub HasOffsets : SparseTernaryLayer → Type 0
HasOffsets layer =
    (total_length layer.pos_indices < 2 ^ 32) × (total_length layer.neg_indices < 2 ^ 32)

pub checked_add_u32-fits :
    (a b : ℕ) → a + b < 2 ^ 32 → checked_add_u32 a (b % 2 ^ 32) ≡ some (a + b)
unfolding checked_add_u32
checked_add_u32-fits a b h = ground arith

pack_offsets-returns :
    (ptr : ℕ) (rows : List (List ℕ))
    → ptr + total_length rows < 2 ^ 32
    → Returns (pack_offsets ptr rows)
unfolding pack_offsets
pack_offsets-returns ptr [] h = (_, refl)
pack_offsets-returns ptr (row ∷ rows) h =
    rw (checked_add_u32-fits ptr (length row) (omega arith)) (
      Returns-bind (pack_offsets-returns (ptr + length row) rows (omega arith)) λ rest e. (_, refl))

pack_layer-returns : (layer : SparseTernaryLayer) → HasOffsets layer → Returns (pack_layer layer)
unfolding pack_layer
pack_layer-returns layer h =
    Returns-bind (pack_offsets-returns 0 layer.pos_indices (omega (arith, h.0))) λ pos_offsets e1.
      Returns-bind (pack_offsets-returns 0 layer.neg_indices (omega (arith, h.1)))
        λ neg_offsets e2. (_, refl)

pack_layers-returns :
    (layers : List SparseTernaryLayer) → All HasOffsets layers → Returns (pack_layers layers)
unfolding pack_layers
pack_layers-returns [] h = (_, refl)
pack_layers-returns (layer ∷ layers) h =
    Returns-bind (pack_layer-returns layer h.0)
      λ first e1. Returns-bind (pack_layers-returns layers h.1) λ rest e2. (_, refl)

pub build_header-returns :
    (c : Crypto) (primitive : Bytes) (input_dim output_dim : ℕ) (layers : List SparseTernaryLayer)
    → All HasOffsets layers
    → Returns (build_header c primitive input_dim output_dim layers)
unfolding build_header pack_weights_dual pack_weights pack_payload
build_header-returns c primitive input_dim output_dim layers h =
    let (packed, e) = pack_layers-returns layers h in rw e (_, refl)

-- A network that `build` makes of its header and the given layers.
pub build_network-returns :
    (c : Crypto) (primitive : Bytes) (input_dim output_dim : ℕ) (layers : List SparseTernaryLayer)
    → All HasOffsets layers
    → (net : TernaryNetwork) × (build_network c primitive input_dim output_dim layers ≡ ok net)
      × (net.layers ≡ layers)
unfolding build_network
build_network-returns c primitive input_dim output_dim layers h =
    let (header, e) = build_header-returns c primitive input_dim output_dim layers h in
    (record { header = header; layers = layers }, rw e refl, refl)
