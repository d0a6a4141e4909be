-- ===== src/Ternary/FreezeApply/Correct.antt =====
-- The network of freeze_apply.rs keeps the low seven bits of the byte and takes its top bit from
-- the flag.
use transformer_vm_bank.Base.{
  ℕ, suc, zero, ◌+◌, ◌*◌, ◌%◌, ◌≤◌, ◌<◌, ◌≡◌, refl, ap, ◌∙◌, true, false, [], ◌∷◌, ◌++◌, map, arith,
  ltb, ltb→lt, le_of_ltb, ◌==◌, if◌then◌else◌, length, All, length-append, length-range, range,
  All-append, ok, ◌>>=◌, Bool-cases, inl, inr, get-replicate, get-pushed, get_or-map-range,
}
use transformer_vm_bank.Bytes.{as_bytes}
use transformer_vm_bank.Crypto.{Crypto}
use transformer_vm_bank.Int.{pos, negsuc, ◌+ℤ◌, ◌-ℤ◌, pos-add}
use transformer_vm_bank.Ternary.FreezeApply.{
  build_layer1, build_layer2, build_layers, build, encode_input, decode_output, run,
}
use transformer_vm_bank.Ternary.Network.{
  TernaryNetwork, forward_layers, forward_row, activate, within,
}
use transformer_vm_bank.Ternary.Network.Kernel.{sum_at}
use transformer_vm_bank.Ternary.Network.Bounds.{
  forward_row-of, forward_layer-of, forward_layers-step, forward-fits,
}
use transformer_vm_bank.Ternary.Parallel.{naturals, length-naturals, small-naturals}
use transformer_vm_bank.Ternary.Sums.{sum_at-append, sum_at-naturals, total, total-step, range-lt}
use transformer_vm_bank.Ternary.Weights.Total.{HasOffsets, build_network-returns}
use transformer_vm_bank.Ternary.FreezeApply.Input.{
  input_of, step_at, low_at, length-input_of, small-input_of, byte-entry, flag-entry, get-second,
}

module _ (flag byte47 : ℕ) (hf : flag ≤ 1) (hb : byte47 < 256) where
  low-value :
      (k : ℕ)
      → k < 128
      → activate true (
          pos 0
          +ℤ (pos (step_at byte47 k) +ℤ pos 0)
          -ℤ (pos (step_at byte47 (k + 128)) +ℤ (pos (step_at byte47 128) +ℤ pos 0)))
        ≡ pos (low_at flag byte47 k)
  unfolding ◌+ℤ◌ ◌-ℤ◌ activate
  low-value k h = ground arith

  copy-value : (n : ℕ) → activate true (pos 0 +ℤ (pos n +ℤ pos 0) -ℤ pos 0) ≡ pos n
  unfolding ◌+ℤ◌ ◌-ℤ◌ activate
  copy-value n = ground arith

  low-row :
      (k : ℕ)
      → k < 128
      → forward_row build_layer1 (input_of flag byte47) 0 k ≡ ok (pos (low_at flag byte47 k))
  unfolding build_layer1 sum_at
  low-row k h =
      let len = length-input_of flag byte47 in
      forward_row-of build_layer1 (input_of flag byte47) 1 0 k (pos 0) ((2 + k) ∷ [])
        ((2 + k + 128) ∷ 130 ∷ []) (get-replicate 257 k (pos 0) (omega arith))
        (get-pushed (λ j. (2 + j) ∷ []) 128 k
          (map (λ j. (2 + j) ∷ []) (range 128 128) ++ (1 ∷ []) ∷ []) h)
        (get-pushed (λ j. (2 + j + 128) ∷ 130 ∷ []) 128 k (map (λ j. []) (range 128 128) ++ [] ∷ [])
          h)
        (small-input_of flag byte47) (omega (arith, len), tt)
        (omega (arith, len), (omega (arith, len), tt)) (omega arith)
      ∙ rw
          (
            byte-entry flag byte47 (2 + k) k hb (omega arith) refl,
            byte-entry flag byte47 (2 + k + 128) (k + 128) hb (omega arith) (omega arith),
            byte-entry flag byte47 130 128 hb (omega arith) (omega arith),
          )
          (ap ok (low-value k h))

  high-row :
      (k : ℕ)
      → 128 ≤ k
      → k < 256
      → forward_row build_layer1 (input_of flag byte47) 0 k ≡ ok (pos (step_at byte47 k))
  unfolding build_layer1 sum_at
  high-row k lo hi =
      let len = length-input_of flag byte47 in
      forward_row-of build_layer1 (input_of flag byte47) 1 0 k (pos 0) ((2 + k) ∷ []) []
        (get-replicate 257 k (pos 0) (omega arith))
        (get-second (map (λ j. (2 + j) ∷ []) (range 0 128)) (λ j. (2 + j) ∷ []) ((1 ∷ []) ∷ []) k
          refl lo hi)
        (get-second (map (λ j. (2 + j + 128) ∷ 130 ∷ []) (range 0 128)) (λ j. []) ([] ∷ []) k refl
          lo hi)
        (small-input_of flag byte47) (omega (arith, len), tt) tt (omega arith)
      ∙ rw (byte-entry flag byte47 (2 + k) k hb hi refl) (ap ok (copy-value (step_at byte47 k)))

  flag-row : forward_row build_layer1 (input_of flag byte47) 0 256 ≡ ok (pos flag)
  unfolding build_layer1 sum_at
  flag-row =
      let len = length-input_of flag byte47 in
      forward_row-of build_layer1 (input_of flag byte47) 1 0 256 (pos 0) (1 ∷ []) [] refl refl refl
        (small-input_of flag byte47) (omega (arith, len), tt) tt (omega arith)
      ∙ rw (flag-entry flag byte47 hf) (ap ok (copy-value flag))

  layer1-row :
      (k : ℕ)
      → k < 257
      → forward_row build_layer1 (input_of flag byte47) 0 k ≡ ok (pos (low_at flag byte47 k))
  layer1-row k h = elim (Bool-cases (ltb k 128)) [
    | inl low ↦ low-row k (ltb→lt k 128 low)
    | inr not_low ↦ elim (Bool-cases (ltb k 256)) [
      | inl mid ↦ rw (not_low, mid) (high-row k (le_of_ltb k 128 not_low) (ltb→lt k 256 mid))
      | inr top ↦ let last : k ≡ 256 = omega (arith, le_of_ltb k 256 top) in rw last flag-row
    ]
  ]

  -- The two sums of the second layer add up to the low seven bits plus one.
  low7-total :
      total (low_at flag byte47) 0 128 + total (low_at flag byte47) 128 128 ≡ byte47 % 128 + 1
  low7-total =
      let first =
        total-step (low_at flag byte47) (if ltb byte47 128 then byte47 + 1 else 0) 0 128
          (λ k lo hi. ground arith) in
      let second = total-step (low_at flag byte47) (byte47 + 1) 128 128 (λ k lo hi. ground arith) in
      ground (arith, first, second)

  small-low_at : (k : ℕ) → k < 257 → low_at flag byte47 k ≤ 1
  small-low_at k h = ground arith

  low7-sum :
      sum_at (naturals (low_at flag byte47) 257) (range 0 128 ++ range 128 128)
      ≡ pos (byte47 % 128 + 1)
  low7-sum =
      sum_at-append (naturals (low_at flag byte47) 257) (range 0 128) (range 128 128)
      ∙ rw
          (
            sum_at-naturals (low_at flag byte47) 257 0 128 (omega arith),
            sum_at-naturals (low_at flag byte47) 257 128 128 (omega arith),
          )
          (pos-add _ _ ∙ ap pos low7-total)

  low7-value : activate false (negsuc 0 +ℤ pos (byte47 % 128 + 1) -ℤ pos 0) ≡ pos (byte47 % 128)
  unfolding ◌+ℤ◌ ◌-ℤ◌ activate
  low7-value = ground arith

  low7-row :
      forward_row build_layer2 (naturals (low_at flag byte47) 257) 1 0 ≡ ok (pos (byte47 % 128))
  unfolding build_layer2 sum_at
  low7-row =
      let x = naturals (low_at flag byte47) 257 in
      let len = length-naturals (low_at flag byte47) 257 in
      forward_row-of build_layer2 x 1 1 0 (negsuc 0) (range 0 128 ++ range 128 128) [] refl refl
        refl (small-naturals (low_at flag byte47) 257 1 small-low_at)
        (All-append (λ j. j < length x) (range 0 128) (range 128 128)
          (range-lt 0 128 (length x) (omega (arith, len)))
          (range-lt 128 128 (length x) (omega (arith, len))))
        tt
        (omega (
          arith,
          length-append (range 0 128) (range 128 128),
          length-range 0 128,
          length-range 128 128,
        ))
      ∙ rw low7-sum (ap ok low7-value)

  linear-value : activate false (pos 0 +ℤ (pos flag +ℤ pos 0) -ℤ pos 0) ≡ pos flag
  unfolding ◌+ℤ◌ ◌-ℤ◌ activate
  linear-value = ground arith

  flag_out-row : forward_row build_layer2 (naturals (low_at flag byte47) 257) 1 1 ≡ ok (pos flag)
  unfolding build_layer2 sum_at
  flag_out-row =
      let len = length-naturals (low_at flag byte47) 257 in
      forward_row-of build_layer2 (naturals (low_at flag byte47) 257) 1 1 1 (pos 0) (256 ∷ []) []
        refl refl refl (small-naturals (low_at flag byte47) 257 1 small-low_at)
        (omega (arith, len), tt) tt (omega arith)
      ∙ rw (get_or-map-range (λ k. pos (low_at flag byte47 k)) 257 256 (pos 0) (omega arith))
          (ap ok linear-value)

  layer2-row :
      (k : ℕ)
      → k < 2
      → forward_row build_layer2 (naturals (low_at flag byte47) 257) 1 k
        ≡ ok (if k == 0 then pos (byte47 % 128) else pos flag)
  layer2-row zero h = low7-row
  layer2-row (suc zero) h = flag_out-row
  layer2-row (suc (suc k)) h = absurd (omega arith)

  forward-input_of :
      forward_layers build_layers 0 (input_of flag byte47) ≡ ok (pos (byte47 % 128) ∷ pos flag ∷ [])
  unfolding build_layers build_layer1 build_layer2 forward_layers
  forward-input_of =
      forward_layers-step build_layer1 (build_layer2 ∷ []) 0 (input_of flag byte47) (λ y h.
        forward_layer-of build_layer1 (input_of flag byte47) (λ k. pos (low_at flag byte47 k)) 0 y
          (length-input_of flag byte47) h layer1-row)
      ∙ forward_layers-step build_layer2 [] 1 (naturals (low_at flag byte47) 257) (λ y h.
        forward_layer-of build_layer2 (naturals (low_at flag byte47) 257)
          (λ k. if k == 0 then pos (byte47 % 128) else pos flag) 1 y
          (length-naturals (low_at flag byte47) 257) h layer2-row)

  decode_output-pair :
      decode_output (pos (byte47 % 128) ∷ pos flag ∷ []) ≡ ok (byte47 % 128 + 128 * flag)
  unfolding decode_output within
  decode_output-pair = ground arith

  encode_input-input_of : encode_input flag byte47 ≡ ok (input_of flag byte47)
  unfolding encode_input
  encode_input-input_of = ground arith

  run-of :
      (net : TernaryNetwork)
      → net.layers ≡ build_layers
      → run net flag byte47 ≡ ok (byte47 % 128 + 128 * flag)
  unfolding run build_layers build_layer1
  run-of net built =
      let whole =
        forward-fits net build_layer1 _ (input_of flag byte47) built (length-input_of flag byte47)
        ∙ forward-input_of in
      rw (encode_input-input_of, whole, decode_output-pair) refl

build-returns :
    (crypto : Crypto)
    → (net : TernaryNetwork) × (build crypto ≡ ok net) × (net.layers ≡ build_layers)
unfolding build build_layers build_layer1 build_layer2
build-returns crypto =
    let small : All HasOffsets build_layers =
      ((omega arith, omega arith), ((omega arith, omega arith), tt)) in
    build_network-returns crypto (as_bytes "freeze_apply") 258 2 build_layers small

-- `build` returns a network, and on a flag of at most 1 and a byte this network returns the byte
-- with its top bit replaced by the flag.
pub freeze_apply-run :
    (crypto : Crypto) (flag byte47 : ℕ)
    → flag ≤ 1
    → byte47 < 256
    → (build crypto >>= λ net. run net flag byte47) ≡ ok (byte47 % 128 + 128 * flag)
freeze_apply-run crypto flag byte47 hf hb =
    let (net, built, same) = build-returns crypto in rw built (run-of flag byte47 hf hb net same)
