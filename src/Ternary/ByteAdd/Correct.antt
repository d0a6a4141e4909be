-- ===== src/Ternary/ByteAdd/Correct.antt =====
-- The network of byte_add_with_carry.rs adds two bytes and a carry.
use transformer_vm_bank.Base.{
  ℕ, ◌+◌, ◌/◌, ◌%◌, ◌≤◌, ◌<◌, ◌≡◌, refl, sym, ap, ◌∙◌, false, List, [], ◌∷◌, ◌++◌, arith, ltb,
  if◌then◌else◌, length, All, range, ok, ◌>>=◌, length-range, Bool-cases, inl, inr, ltb→lt,
  le_of_ltb, get-replicate, get-pushed,
}
use transformer_vm_bank.Bytes.{as_bytes}
use transformer_vm_bank.Crypto.{Crypto}
use transformer_vm_bank.Int.{ℤ, pos, negsuc, ◌+ℤ◌, ◌-ℤ◌}
use transformer_vm_bank.Ternary.ByteAdd.{
  build_layer1_total, build_layer2_parallel_relu, build_layer3_thermo_decode,
  build_layer4_projection, build_layers, encode_input, decode_output, is_bit, run, build,
}
use transformer_vm_bank.Ternary.Network.{
  TernaryNetwork, forward_layer, forward_layers, forward_row, activate,
}
use transformer_vm_bank.Ternary.Network.Kernel.{sum_at}
use transformer_vm_bank.Ternary.Network.Bounds.{
  forward_row-of, forward_layer-of, forward_layers-step, forward-fits,
}
use transformer_vm_bank.Ternary.Operands.{
  operands, length-operands, small-operands, sum_at-first_operand, sum_at-second_operand,
  sum_at-third_operand,
}
use transformer_vm_bank.Ternary.Parallel.{
  naturals, length-naturals, small-naturals, thermo_at, parallel_relu, thermo_decode, push_pairs,
}
use transformer_vm_bank.Ternary.Projection.{
  one_hot, one_hot-row, thermo-entry, small-thermo_at, argmax-low_byte, layers-from_total,
}
use transformer_vm_bank.Ternary.Sums.{sum_at-append, range-lt}
use transformer_vm_bank.Ternary.Weights.Total.{HasOffsets, build_network-returns}

module _ (a b c : ℕ) (ha : a < 256) (hb : b < 256) (hc : c ≤ 1) where
  all_columns : sum_at (operands a b c) (range 0 514) ≡ pos (a + 1) +ℤ (pos (b + 1) +ℤ pos (c + 1))
  all_columns =
      sum_at-append (operands a b c) (range 0 256) (range 256 256 ++ range 512 2)
      ∙ rw
          (
            sum_at-append (operands a b c) (range 256 256) (range 512 2),
            sum_at-first_operand a b c ha,
            sum_at-second_operand a b c hb,
            sum_at-third_operand a b c hc,
          )
          refl

  total_value :
      activate false (negsuc 2 +ℤ (pos (a + 1) +ℤ (pos (b + 1) +ℤ pos (c + 1))) -ℤ pos 0)
      ≡ pos (a + b + c)
  unfolding ◌+ℤ◌ ◌-ℤ◌ activate
  total_value = ground arith

  layer1-row : forward_row build_layer1_total (operands a b c) 0 0 ≡ ok (pos (a + b + c))
  unfolding build_layer1_total sum_at
  layer1-row =
      let len = length-operands a b c in
      forward_row-of build_layer1_total (operands a b c) 1 0 0 (negsuc 2) (range 0 514) [] refl refl
        refl (small-operands a b c) (range-lt 0 514 (length (operands a b c)) (omega (arith, len)))
        tt (omega (arith, length-range 0 514))
      ∙ rw all_columns (ap ok total_value)

  layer1 :
      (y : List ℤ)
      → length y ≡ 1
      → forward_layer build_layer1_total (operands a b c) y 0 ≡ ok (pos (a + b + c) ∷ [])
  unfolding build_layer1_total
  layer1 y hy =
      forward_layer-of build_layer1_total (operands a b c) (λ k. pos (a + b + c)) 0 y
        (length-operands a b c) hy (λ k h. let first : k ≡ 0 = omega arith in rw first layer1-row)

-- What the network puts out for a total.
abbrev output_at : ℕ → ℕ → ℕ
output_at total k = if ltb k 256 then one_hot total k else thermo_at total 256

carry-value :
    (total : ℕ)
    → activate false (pos 0 +ℤ (pos (thermo_at total 256) +ℤ pos 0) -ℤ pos 0)
      ≡ pos (thermo_at total 256)
unfolding ◌+ℤ◌ ◌-ℤ◌ activate
carry-value total = ground arith

carry-row :
    (total : ℕ)
    → forward_row build_layer4_projection (naturals (thermo_at total) 513) 3 256
      ≡ ok (pos (thermo_at total 256))
unfolding build_layer4_projection sum_at
carry-row total =
    let len = length-naturals (thermo_at total) 513 in
    forward_row-of build_layer4_projection (naturals (thermo_at total) 513) 1 3 256 (pos 0)
      (256 ∷ []) [] refl refl refl
      (small-naturals (thermo_at total) 513 1 (λ i lt. small-thermo_at total i))
      (omega (arith, len), tt) tt (omega arith)
    ∙ rw (thermo-entry total 256 (omega arith)) (ap ok (carry-value total))

projection-row :
    (total k : ℕ)
    → k < 257
    → forward_row build_layer4_projection (naturals (thermo_at total) 513) 3 k
      ≡ ok (pos (output_at total k))
unfolding build_layer4_projection
projection-row total k h = elim (Bool-cases (ltb k 256)) [
  | inl low ↦
      let small = ltb→lt k 256 low in
      rw low (
        one_hot-row build_layer4_projection total 3 k small refl (get-replicate 257 k (pos 0) h)
          (get-pushed (λ j. j ∷ (j + 256) ∷ []) 256 k ((256 ∷ []) ∷ []) small)
          (get-pushed (λ j. (j + 1) ∷ (j + 257) ∷ []) 256 k ([] ∷ []) small))
  | inr high ↦ let last : k ≡ 256 = omega (arith, le_of_ltb k 256 high) in rw last (carry-row total)
]

layer4 :
    (total : ℕ) (y : List ℤ)
    → length y ≡ 257
    → forward_layer build_layer4_projection (naturals (thermo_at total) 513) y 3
      ≡ ok (naturals (output_at total) 257)
unfolding build_layer4_projection
layer4 total y hy =
    forward_layer-of build_layer4_projection (naturals (thermo_at total) 513)
      (λ k. pos (output_at total k)) 3 y (length-naturals (thermo_at total) 513) hy
      (projection-row total)

decode_output-naturals :
    (total : ℕ)
    → total < 512
    → decode_output (naturals (output_at total) 257) ≡ ok (total % 256, total / 256)
unfolding decode_output is_bit
decode_output-naturals total h =
    let low = argmax-low_byte (output_at total) total h (λ k lt. ground arith) in
    rw low (ground arith)

forward-operands :
    (a b c : ℕ)
    → a < 256
    → b < 256
    → c ≤ 1
    → forward_layers build_layers 0 (operands a b c) ≡ ok (naturals (output_at (a + b + c)) 257)
unfolding build_layers build_layer1_total build_layer2_parallel_relu build_layer3_thermo_decode
    build_layer4_projection
forward-operands a b c ha hb hc =
    let l4 = build_layer4_projection in
    forward_layers-step build_layer1_total (parallel_relu 513 ∷ thermo_decode 513 ∷ l4 ∷ []) 0
      (operands a b c) (layer1 a b c ha hb hc)
    ∙ layers-from_total (a + b + c) l4 (output_at (a + b + c)) (omega arith) (layer4 (a + b + c))

encode_input-operands : (a b c : ℕ) → c ≤ 1 → encode_input a b c ≡ ok (operands a b c)
unfolding encode_input
encode_input-operands a b c h = ground arith

-- The network of `build_layers`, whatever its header.
pub run-adds :
    (net : TernaryNetwork) (a b c : ℕ)
    → net.layers ≡ build_layers
    → a < 256
    → b < 256
    → c ≤ 1
    → run net a b c ≡ ok ((a + b + c) % 256, (a + b + c) / 256)
unfolding run build_layers build_layer1_total
run-adds net a b c built ha hb hc =
    let whole =
      forward-fits net build_layer1_total _ (operands a b c) built (length-operands a b c)
      ∙ forward-operands a b c ha hb hc in
    rw (encode_input-operands a b c hc, whole, decode_output-naturals (a + b + c) (omega arith))
      refl

pub build-returns :
    (crypto : Crypto)
    → (net : TernaryNetwork) × (build crypto ≡ ok net) × (net.layers ≡ build_layers)
unfolding build build_layers build_layer1_total build_layer2_parallel_relu
    build_layer3_thermo_decode build_layer4_projection parallel_relu thermo_decode push_pairs
build-returns crypto =
    let small : All HasOffsets build_layers = (
      (omega arith, omega arith),
      ((omega arith, omega arith), ((omega arith, omega arith), ((omega arith, omega arith), tt))),
    ) in
    build_network-returns crypto (as_bytes "byte_add_with_carry") 514 257 build_layers small

-- `build` returns a network, and on any two bytes and a carry of at most 1 this network returns the
-- low byte of their sum and its carry: it does not overflow, index outside a vector or fail to
-- decode.
pub byte_add-run :
    (crypto : Crypto) (a b c : ℕ)
    → a < 256
    → b < 256
    → c ≤ 1
    → (build crypto >>= λ net. run net a b c) ≡ ok ((a + b + c) % 256, (a + b + c) / 256)
byte_add-run crypto a b c ha hb hc =
    let (net, built, same) = build-returns crypto in rw built (run-adds net a b c same ha hb hc)

-- Any network that `build` returns has the layers of `build_layers`.
pub build-layers :
    (crypto : Crypto) {net : TernaryNetwork} → build crypto ≡ ok net → net.layers ≡ build_layers
build-layers crypto {net} e =
    let (made, built, same) = build-returns crypto in let one : made ≡ net = cc in rw (sym one) same
