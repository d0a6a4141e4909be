-- ===== src/Ternary/FreezeSetup/Correct.antt =====
-- The network of freeze_setup.rs returns the witness's flag and its byte 47.
use transformer_vm_bank.Base.{
  ℕ, suc, zero, ◌≤◌, ◌<◌, ◌≡◌, refl, ap, ◌∙◌, false, List, [], ◌∷◌, ◌++◌, arith, ◌==◌,
  if◌then◌else◌, length, get_or, All, length-append, length-range, range, All-append, ok, ◌>>=◌,
  get_or-append-left, get_or-lt,
}
use transformer_vm_bank.Bytes.{Bytes, AreBytes, as_bytes}
use transformer_vm_bank.Crypto.{Crypto}
use transformer_vm_bank.Int.{ℤ, pos, negsuc, ◌+ℤ◌, ◌-ℤ◌}
use transformer_vm_bank.Ternary.Network.{
  TernaryNetwork, forward_layers, forward_row, activate, within,
}
use transformer_vm_bank.Ternary.Network.Kernel.{sum_at, magnitude}
use transformer_vm_bank.Ternary.Network.Bounds.{
  forward_row-of, forward_layer-of, forward_layers-step, forward-fits, All-get_or,
}
use transformer_vm_bank.Ternary.Sums.{
  sum_at-byte, length-encode_bytes, small-encode, small-encode_bytes, range-lt,
}
use transformer_vm_bank.Ternary.Thermo.{encode, encode_bytes, length-encode, get-encode}
use transformer_vm_bank.Ternary.Weights.Total.{HasOffsets, build_network-returns}
use transformer_vm_bank.Ternary.FreezeSetup.{
  build_layer1, build_layers, build, encode_input, decode_output, run,
}
use transformer_vm_bank.Ternary.MptEmit.Correct.{byte-value}

abbrev input_of : ℕ → Bytes → List ℤ
input_of flag bytes = encode (pos flag) 1 ++ encode_bytes bytes

module _ (flag : ℕ) (bytes : Bytes) (hf : flag ≤ 1) (h : AreBytes bytes)
    (len : length bytes ≡ 64) where
  length-input : length (input_of flag bytes) ≡ 16386
  length-input = omega (
    arith,
    length-append (encode (pos flag) 1) (encode_bytes bytes),
    length-encode (pos flag) 1,
    length-encode_bytes bytes,
  )

  small-input : All (λ v. magnitude v ≤ 1) (input_of flag bytes)
  small-input =
      All-append (λ v. magnitude v ≤ 1) (encode (pos flag) 1) (encode_bytes bytes)
        (small-encode (pos flag) 1) (small-encode_bytes bytes)

  flag-entry : get_or (input_of flag bytes) 1 (pos 0) ≡ pos flag
  flag-entry =
      get_or-append-left (encode (pos flag) 1) (encode_bytes bytes) 1 (pos 0)
        (omega (arith, length-encode (pos flag) 1))
      ∙ get_or-lt (encode (pos flag) 1) 1 (pos 0) (get-encode flag 1 1 hf (omega arith))
      ∙ ground arith

  copy-value : activate false (pos 0 +ℤ (pos flag +ℤ pos 0) -ℤ pos 0) ≡ pos flag
  unfolding ◌+ℤ◌ ◌-ℤ◌ activate
  copy-value = ground arith

  flag-row : forward_row build_layer1 (input_of flag bytes) 0 0 ≡ ok (pos flag)
  unfolding build_layer1 sum_at
  flag-row =
      forward_row-of build_layer1 (input_of flag bytes) 1 0 0 (pos 0) (1 ∷ []) [] refl refl refl
        small-input (omega (arith, length-input), tt) tt (omega arith)
      ∙ rw flag-entry (ap ok copy-value)

  byte-row : forward_row build_layer1 (input_of flag bytes) 0 1 ≡ ok (pos (get_or bytes 47 0))
  unfolding build_layer1 sum_at
  byte-row =
      let columns =
        sum_at-byte (encode (pos flag) 1) bytes 12034 47 h (omega arith)
          (omega (arith, length-encode (pos flag) 1)) in
      forward_row-of build_layer1 (input_of flag bytes) 1 0 1 (negsuc 0) (range 12034 256) [] refl
        refl refl small-input
        (range-lt 12034 256 (length (input_of flag bytes)) (omega (arith, length-input))) tt
        (omega (arith, length-range 12034 256))
      ∙ rw columns (ap ok (byte-value (get_or bytes 47 0)))

  layer1-row :
      (k : ℕ)
      → k < 2
      → forward_row build_layer1 (input_of flag bytes) 0 k
        ≡ ok (if k == 0 then pos flag else pos (get_or bytes 47 0))
  layer1-row zero lt = flag-row
  layer1-row (suc zero) lt = byte-row
  layer1-row (suc (suc k)) lt = absurd (omega arith)

  forward-witness :
      forward_layers build_layers 0 (input_of flag bytes)
      ≡ ok (pos flag ∷ pos (get_or bytes 47 0) ∷ [])
  unfolding build_layers build_layer1 forward_layers
  forward-witness = forward_layers-step build_layer1 [] 0 (input_of flag bytes) (λ y hy.
      forward_layer-of build_layer1 (input_of flag bytes)
        (λ k. if k == 0 then pos flag else pos (get_or bytes 47 0)) 0 y length-input hy layer1-row)

  decode_output-pair :
      decode_output (pos flag ∷ pos (get_or bytes 47 0) ∷ []) ≡ ok (flag, get_or bytes 47 0)
  unfolding decode_output within
  decode_output-pair =
      let byte : get_or bytes 47 0 < 256 = All-get_or (λ b. b < 256) bytes 47 0 (omega arith) h in
      ground arith

  encode_input-witness : encode_input (flag ∷ bytes) ≡ ok (input_of flag bytes)
  unfolding encode_input
  encode_input-witness = ground arith

  run-of :
      (net : TernaryNetwork)
      → net.layers ≡ build_layers
      → run net (flag ∷ bytes) ≡ ok (flag, get_or bytes 47 0)
  unfolding run build_layers build_layer1
  run-of net built =
      let whole =
        forward-fits net build_layer1 _ (input_of flag bytes) built length-input
        ∙ forward-witness in
      rw (encode_input-witness, whole, decode_output-pair) refl

build-returns :
    (crypto : Crypto)
    → (net : TernaryNetwork) × (build crypto ≡ ok net) × (net.layers ≡ build_layers)
unfolding build build_layers build_layer1
build-returns crypto =
    let small : All HasOffsets build_layers = ((omega arith, omega arith), tt) in
    build_network-returns crypto (as_bytes "freeze_setup") 16386 2 build_layers small

-- `build` returns a network, and on a witness of a flag of at most 1 and 64 bytes this network
-- returns the flag and byte 47.
pub freeze_setup-run :
    (crypto : Crypto) (flag : ℕ) (bytes : Bytes)
    → flag ≤ 1
    → AreBytes bytes
    → length bytes ≡ 64
    → (build crypto >>= λ net. run net (flag ∷ bytes)) ≡ ok (flag, get_or bytes 47 0)
freeze_setup-run crypto flag bytes hf h len =
    let (net, built, same) = build-returns crypto in rw built (run-of flag bytes hf h len net same)
