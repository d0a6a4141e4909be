-- ===== src/Ternary/Projection.antt =====
-- The last layer that the byte adder and the byte subtracter share, up to its last row: from the
-- thermometer of a total to the one-hot vector of its low byte.
use transformer_vm_bank.Base.{
  ℕ, suc, zero, ◌+◌, ◌%◌, ◌≤◌, ◌<◌, ◌≡◌, refl, ap, ◌∙◌, false, List, [], ◌∷◌, map, arith, ◌==◌,
  if◌then◌else◌, length, get, get_or, range, take, some, ok, get_or-map-range,
}
use transformer_vm_bank.Int.{ℤ, pos, ◌+ℤ◌, ◌-ℤ◌}
use transformer_vm_bank.Ternary.Network.{
  SparseTernaryLayer, forward_row, forward_layer, forward_layers, activate, argmax,
}
use transformer_vm_bank.Ternary.Network.Argmax.{argmax-one_hot}
use transformer_vm_bank.Ternary.Network.Bounds.{forward_row-of, forward_layers-step}
use transformer_vm_bank.Ternary.Network.Kernel.{sum_at}
use transformer_vm_bank.Ternary.Parallel.{
  naturals, length-naturals, small-naturals, thermo_at, relu_pair, parallel_relu, thermo_decode,
  parallel_relu-layer, thermo_decode-layer,
}

-- Entry `k` of the one-hot vector of `total`'s low byte.
abbrev pub one_hot : ℕ → ℕ → ℕ
one_hot total k = if total == k then 1 else if total == k + 256 then 1 else 0

-- What the layer reads of the thermometer.
pub thermo-entry :
    (total j : ℕ)
    → j < 513
    → get_or (naturals (thermo_at total) 513) j (pos 0) ≡ pos (thermo_at total j)
thermo-entry total j h = get_or-map-range (λ i. pos (thermo_at total i)) 513 j (pos 0) h

pub small-thermo_at : (total i : ℕ) → thermo_at total i ≤ 1
small-thermo_at total i = ground arith

one_hot-value :
    (total k : ℕ)
    → activate false (
        pos 0
        +ℤ (pos (thermo_at total k) +ℤ (pos (thermo_at total (k + 256)) +ℤ pos 0))
        -ℤ (pos (thermo_at total (k + 1)) +ℤ (pos (thermo_at total (k + 257)) +ℤ pos 0)))
      ≡ pos (one_hot total k)
unfolding ◌+ℤ◌ ◌-ℤ◌ activate
one_hot-value total k = ground arith

pub one_hot-row :
    (layer : SparseTernaryLayer) (total layer_idx k : ℕ)
    → k < 256
    → layer.relu ≡ false
    → get layer.bias k ≡ some (pos 0)
    → get layer.pos_indices k ≡ some (k ∷ (k + 256) ∷ [])
    → get layer.neg_indices k ≡ some ((k + 1) ∷ (k + 257) ∷ [])
    → forward_row layer (naturals (thermo_at total) 513) layer_idx k ≡ ok (pos (one_hot total k))
unfolding sum_at
one_hot-row layer total layer_idx k h linear at_bias at_pos at_neg =
    let x = naturals (thermo_at total) 513 in
    let len = length-naturals (thermo_at total) 513 in
    forward_row-of layer x 1 layer_idx k (pos 0) (k ∷ (k + 256) ∷ []) ((k + 1) ∷ (k + 257) ∷ [])
      at_bias at_pos at_neg
      (small-naturals (thermo_at total) 513 1 (λ i lt. small-thermo_at total i))
      (omega (arith, len), (omega (arith, len), tt)) (omega (arith, len), (omega (arith, len), tt))
      (omega arith)
    ∙ rw
        (
          linear,
          thermo-entry total k (omega arith),
          thermo-entry total (k + 256) (omega arith),
          thermo-entry total (k + 1) (omega arith),
          thermo-entry total (k + 257) (omega arith),
        )
        (ap ok (one_hot-value total k))

take-map-range {ℓ} :
    {A : Type ℓ} (f : ℕ → A) (i n m : ℕ) → take n (map f (range i (n + m))) ≡ map f (range i n)
take-map-range f i zero m = refl
take-map-range f i (suc n) m =
    let len : suc n + m ≡ suc (n + m) = omega arith in rw (len, take-map-range f (suc i) n m) refl

-- The byte that the decoder reads off the first 256 outputs.
pub argmax-low_byte :
    (f : ℕ → ℕ) (total : ℕ)
    → total < 512
    → ((k : ℕ) → k < 256 → f k ≡ one_hot total k)
    → argmax (take 256 (naturals f 257)) ≡ ok (total % 256)
argmax-low_byte f total h one_hot_at =
    ap argmax (take-map-range (λ k. pos (f k)) 0 256 1)
    ∙ argmax-one_hot f 256 (total % 256) (omega arith)
        (ground (arith, one_hot_at (total % 256) (omega arith)))
        (λ k lt ne. ground (arith, one_hot_at k lt))

-- The layers from the total on, with any last layer that computes `out` from the thermometer.
pub layers-from_total :
    (total : ℕ) (last : SparseTernaryLayer) (out : ℕ → ℕ)
    → total < 512
    → ((y : List ℤ)
        → length y ≡ last.output_dim
        → forward_layer last (naturals (thermo_at total) 513) y 3 ≡ ok (naturals out 257))
    → forward_layers (parallel_relu 513 ∷ thermo_decode 513 ∷ last ∷ []) 1 (pos total ∷ [])
      ≡ ok (naturals out 257)
unfolding parallel_relu thermo_decode forward_layers
layers-from_total total last out h gives =
    forward_layers-step (parallel_relu 513) (thermo_decode 513 ∷ last ∷ []) 1 (pos total ∷ [])
      (λ y hy. parallel_relu-layer 513 total 1 y hy (omega arith))
    ∙ forward_layers-step (thermo_decode 513) (last ∷ []) 2 (naturals (relu_pair total) 1026)
        (λ y hy. thermo_decode-layer 513 total 2 y hy (omega arith))
    ∙ forward_layers-step last [] 3 (naturals (thermo_at total) 513) gives
