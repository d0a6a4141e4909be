-- ===== src/Ternary/ByteSub/Correct.antt =====
-- The network of byte_sub_with_borrow.rs subtracts a byte and a borrow from a byte.
use transformer_vm_bank.Base.{
  ℕ, ◌+◌, ◌/◌, ◌%◌, ◌≤◌, ◌<◌, ◌≡◌, refl, sym, ap, ◌∙◌, false, List, [], ◌∷◌, ◌++◌, arith, ltb,
  if◌then◌else◌, length, replicate, All, length-replicate, range, ok, ◌>>=◌, length-range,
  Bool-cases, inl, inr, ltb→lt, le_of_ltb, get-replicate, get-pushed, get-append-left,
  length-append, All-append, ◌-◌,
}
use transformer_vm_bank.Bytes.{as_bytes}
use transformer_vm_bank.Crypto.{Crypto}
use transformer_vm_bank.Int.{ℤ, pos, ◌+ℤ◌, ◌-ℤ◌}
use transformer_vm_bank.Ternary.ByteAdd.{is_bit}
use transformer_vm_bank.Ternary.ByteSub.{
  build_layer1_total_shifted, build_layer2_parallel_relu, build_layer3_thermo_decode,
  build_layer4_projection, build_layers, encode_input, decode_output, run, build,
}
use transformer_vm_bank.Ternary.Network.{
  TernaryNetwork, forward_layer, forward_layers, forward_row, activate,
}
use transformer_vm_bank.Ternary.Network.Kernel.{sum_at}
use transformer_vm_bank.Ternary.Network.Bounds.{
  forward_row-of, forward_layer-of, forward_layers-step, forward-fits,
}
use transformer_vm_bank.Ternary.Operands.{
  operands, length-operands, small-operands, sum_at-first_operand, sum_at-second_operand,
  sum_at-third_operand,
}
use transformer_vm_bank.Ternary.Parallel.{
  naturals, length-naturals, small-naturals, thermo_at, parallel_relu, thermo_decode, push_pairs,
}
use transformer_vm_bank.Ternary.Projection.{
  one_hot, one_hot-row, thermo-entry, small-thermo_at, argmax-low_byte, layers-from_total,
}
use transformer_vm_bank.Ternary.Sums.{sum_at-append, range-lt}
use transformer_vm_bank.Ternary.Weights.Total.{HasOffsets, build_network-returns}

module _ (m s b : ℕ) (hm : m < 256) (hs : s < 256) (hb : b ≤ 1) where
  neg_columns : sum_at (operands m s b) (range 256 256 ++ range 512 2) ≡ pos (s + 1) +ℤ pos (b + 1)
  neg_columns =
      sum_at-append (operands m s b) (range 256 256) (range 512 2)
      ∙ rw (sum_at-second_operand m s b hs, sum_at-third_operand m s b hb) refl

  total_value :
      activate false (pos 257 +ℤ pos (m + 1) -ℤ (pos (s + 1) +ℤ pos (b + 1)))
      ≡ pos (m + 256 - s - b)
  unfolding ◌+ℤ◌ ◌-ℤ◌ activate
  total_value = ground arith

  layer1-row :
      forward_row build_layer1_total_shifted (operands m s b) 0 0 ≡ ok (pos (m + 256 - s - b))
  unfolding build_layer1_total_shifted
  layer1-row =
      let len = length-operands m s b in
      forward_row-of build_layer1_total_shifted (operands m s b) 1 0 0 (pos 257) (range 0 256)
        (range 256 256 ++ range 512 2) refl refl refl (small-operands m s b)
        (range-lt 0 256 (length (operands m s b)) (omega (arith, len)))
        (All-append (λ j. j < length (operands m s b)) (range 256 256) (range 512 2)
          (range-lt 256 256 (length (operands m s b)) (omega (arith, len)))
          (range-lt 512 2 (length (operands m s b)) (omega (arith, len))))
        (omega (
          arith,
          length-range 0 256,
          length-append (range 256 256) (range 512 2),
          length-range 256 256,
          length-range 512 2,
        ))
      ∙ rw (sum_at-first_operand m s b hm, neg_columns) (ap ok total_value)

  layer1 :
      (y : List ℤ)
      → length y ≡ 1
      → forward_layer build_layer1_total_shifted (operands m s b) y 0
        ≡ ok (pos (m + 256 - s - b) ∷ [])
  unfolding build_layer1_total_shifted
  layer1 y hy =
      forward_layer-of build_layer1_total_shifted (operands m s b) (λ k. pos (m + 256 - s - b)) 0 y
        (length-operands m s b) hy (λ k h. let first : k ≡ 0 = omega arith in rw first layer1-row)

-- What the network puts out for a total.
abbrev output_at : ℕ → ℕ → ℕ
output_at total k = if ltb k 256 then one_hot total k else 1 - thermo_at total 256

borrow-value :
    (total : ℕ)
    → activate false (pos 1 +ℤ pos 0 -ℤ (pos (thermo_at total 256) +ℤ pos 0))
      ≡ pos (1 - thermo_at total 256)
unfolding ◌+ℤ◌ ◌-ℤ◌ activate
borrow-value total = ground arith

borrow-row :
    (total : ℕ)
    → forward_row build_layer4_projection (naturals (thermo_at total) 513) 3 256
      ≡ ok (pos (1 - thermo_at total 256))
unfolding build_layer4_projection sum_at
borrow-row total =
    let len = length-naturals (thermo_at total) 513 in
    forward_row-of build_layer4_projection (naturals (thermo_at total) 513) 1 3 256 (pos 1) []
      (256 ∷ []) refl refl refl
      (small-naturals (thermo_at total) 513 1 (λ i lt. small-thermo_at total i)) tt
      (omega (arith, len), tt) (omega arith)
    ∙ rw (thermo-entry total 256 (omega arith)) (ap ok (borrow-value total))

projection-row :
    (total k : ℕ)
    → k < 257
    → forward_row build_layer4_projection (naturals (thermo_at total) 513) 3 k
      ≡ ok (pos (output_at total k))
unfolding build_layer4_projection
projection-row total k h = elim (Bool-cases (ltb k 256)) [
  | inl low ↦
      let small = ltb→lt k 256 low in
      rw low (
        one_hot-row build_layer4_projection total 3 k small refl
          (get-append-left (replicate 256 (pos 0)) (pos 1 ∷ []) k
              (omega (arith, small, length-replicate 256 (pos 0)))
            ∙ get-replicate 256 k (pos 0) small)
          (get-pushed (λ j. j ∷ (j + 256) ∷ []) 256 k ([] ∷ []) small)
          (get-pushed (λ j. (j + 1) ∷ (j + 257) ∷ []) 256 k ((256 ∷ []) ∷ []) small))
  | inr high ↦
      let last : k ≡ 256 = omega (arith, le_of_ltb k 256 high) in rw last (borrow-row total)
]

layer4 :
    (total : ℕ) (y : List ℤ)
    → length y ≡ 257
    → forward_layer build_layer4_projection (naturals (thermo_at total) 513) y 3
      ≡ ok (naturals (output_at total) 257)
unfolding build_layer4_projection
layer4 total y hy =
    forward_layer-of build_layer4_projection (naturals (thermo_at total) 513)
      (λ k. pos (output_at total k)) 3 y (length-naturals (thermo_at total) 513) hy
      (projection-row total)

decode_output-naturals :
    (total : ℕ)
    → total < 512
    → decode_output (naturals (output_at total) 257) ≡ ok (total % 256, 1 - total / 256)
unfolding decode_output is_bit
decode_output-naturals total h =
    let low = argmax-low_byte (output_at total) total h (λ k lt. ground arith) in
    rw low (ground arith)

forward-operands :
    (m s b : ℕ)
    → m < 256
    → s < 256
    → b ≤ 1
    → forward_layers build_layers 0 (operands m s b)
      ≡ ok (naturals (output_at (m + 256 - s - b)) 257)
unfolding build_layers build_layer1_total_shifted build_layer2_parallel_relu
    build_layer3_thermo_decode build_layer4_projection
forward-operands m s b hm hs hb =
    let l4 = build_layer4_projection in
    forward_layers-step build_layer1_total_shifted (parallel_relu 513 ∷ thermo_decode 513 ∷ l4 ∷ [])
      0 (operands m s b) (layer1 m s b hm hs hb)
    ∙ layers-from_total (m + 256 - s - b) l4 (output_at (m + 256 - s - b)) (omega arith)
        (layer4 (m + 256 - s - b))

encode_input-operands : (m s b : ℕ) → b ≤ 1 → encode_input m s b ≡ ok (operands m s b)
unfolding encode_input
encode_input-operands m s b h = ground arith

-- The network of `build_layers`, whatever its header.
pub run-subtracts :
    (net : TernaryNetwork) (m s b : ℕ)
    → net.layers ≡ build_layers
    → m < 256
    → s < 256
    → b ≤ 1
    → run net m s b ≡ ok ((m + 256 - s - b) % 256, if ltb m (s + b) then 1 else 0)
unfolding run build_layers build_layer1_total_shifted
run-subtracts net m s b built hm hs hb =
    let whole =
      forward-fits net build_layer1_total_shifted _ (operands m s b) built (length-operands m s b)
      ∙ forward-operands m s b hm hs hb in
    rw
      (
        encode_input-operands m s b hb,
        whole,
        decode_output-naturals (m + 256 - s - b) (omega arith),
      )
      (ap (λ w. ok ((m + 256 - s - b) % 256, w)) (ground arith))

pub build-returns :
    (crypto : Crypto)
    → (net : TernaryNetwork) × (build crypto ≡ ok net) × (net.layers ≡ build_layers)
unfolding build build_layers build_layer1_total_shifted build_layer2_parallel_relu
    build_layer3_thermo_decode build_layer4_projection parallel_relu thermo_decode push_pairs
build-returns crypto =
    let small : All HasOffsets build_layers = (
      (omega arith, omega arith),
      ((omega arith, omega arith), ((omega arith, omega arith), ((omega arith, omega arith), tt))),
    ) in
    build_network-returns crypto (as_bytes "byte_sub_with_borrow") 514 257 build_layers small

-- `build` returns a network, and on any two bytes and a borrow of at most 1 this network returns the
-- low byte of their difference and 1 as the borrow when the difference is negative, 0 otherwise: it
-- does not overflow, index outside a vector or fail to decode.
pub byte_sub-run :
    (crypto : Crypto) (m s b : ℕ)
    → m < 256
    → s < 256
    → b ≤ 1
    → (build crypto >>= λ net. run net m s b)
      ≡ ok ((m + 256 - s - b) % 256, if ltb m (s + b) then 1 else 0)
byte_sub-run crypto m s b hm hs hb =
    let (net, built, same) = build-returns crypto in
    rw built (run-subtracts net m s b same hm hs hb)

-- Any network that `build` returns has the layers of `build_layers`.
pub build-layers :
    (crypto : Crypto) {net : TernaryNetwork} → build crypto ≡ ok net → net.layers ≡ build_layers
build-layers crypto {net} e =
    let (made, built, same) = build-returns crypto in let one : made ≡ net = cc in rw (sym one) same
