-- ===== src/Ternary/MptEmit/Correct.antt =====
-- The network of mpt_emit_record.rs returns its record.
use transformer_vm_bank.Base.{
  ℕ, ◌+◌, ◌*◌, ◌%◌, ◌<◌, ◌≡◌, refl, ap, ◌∙◌, true, false, [], ◌∷◌, map, arith, leb, length, get_or,
  All, length-map, length-range, range, ok, ◌>>=◌, get-replicate, get-map-range0, map-get_or,
}
use transformer_vm_bank.Bytes.{Bytes, AreBytes, as_bytes}
use transformer_vm_bank.Crypto.{Crypto}
use transformer_vm_bank.Int.{pos, negsuc, ◌+ℤ◌, ◌-ℤ◌}
use transformer_vm_bank.Ternary.Network.{
  TernaryNetwork, forward_layers, forward_row, activate, within,
}
use transformer_vm_bank.Ternary.Network.Kernel.{sum_at}
use transformer_vm_bank.Ternary.Network.Bounds.{
  forward_row-of, forward_layer-of, forward_layers-step, forward-fits,
}
use transformer_vm_bank.Ternary.Sums.{
  sum_at-byte, length-encode_bytes, small-encode_bytes, range-lt,
}
use transformer_vm_bank.Ternary.Thermo.{encode_bytes}
use transformer_vm_bank.Ternary.Weights.Total.{HasOffsets, build_network-returns}
use transformer_vm_bank.Ternary.MptEmit.{
  build_layer1, build_layers, build, encode_input, decode_output, decode_bytes, run,
}

-- A thermometer's sum less one is its byte.
pub byte-value : (b : ℕ) → activate false (negsuc 0 +ℤ pos (b + 1) -ℤ pos 0) ≡ pos b
unfolding ◌+ℤ◌ ◌-ℤ◌ activate
byte-value b = ground arith

decode_bytes-map :
    (bytes : Bytes) → AreBytes bytes → decode_bytes (map (λ b. pos b) bytes) ≡ ok bytes
unfolding decode_bytes within
decode_bytes-map [] h = refl
decode_bytes-map (b ∷ bytes) h =
    let small : leb b 255 ≡ true = ground (arith, h.0) in
    let same : b % 256 ≡ b = omega (arith, h.0) in rw (small, decode_bytes-map bytes h.1, same) refl

module _ (bytes : Bytes) (h : AreBytes bytes) (len : length bytes ≡ 64) where
  length-input : length (encode_bytes bytes) ≡ 16384
  length-input = omega (arith, length-encode_bytes bytes)

  layer1-row :
      (i : ℕ)
      → i < 64
      → forward_row build_layer1 (encode_bytes bytes) 0 i ≡ ok (pos (get_or bytes i 0))
  unfolding build_layer1 sum_at
  layer1-row i lt =
      forward_row-of build_layer1 (encode_bytes bytes) 1 0 i (negsuc 0) (range (i * 256) 256) []
        (get-replicate 64 i (negsuc 0) lt) (get-map-range0 (λ j. range (j * 256) 256) 64 i lt)
        (get-map-range0 (λ j. []) 64 i lt) (small-encode_bytes bytes)
        (range-lt (i * 256) 256 (length (encode_bytes bytes)) (omega (arith, length-input))) tt
        (omega (arith, length-range (i * 256) 256))
      ∙ rw (sum_at-byte [] bytes (i * 256) i h (omega arith) (omega arith))
          (ap ok (byte-value (get_or bytes i 0)))

  forward-bytes : forward_layers build_layers 0 (encode_bytes bytes) ≡ ok (map (λ b. pos b) bytes)
  unfolding build_layers build_layer1 forward_layers
  forward-bytes =
      let entries : map (λ k. pos (get_or bytes k 0)) (range 0 64) ≡ map (λ b. pos b) bytes =
        rw len at (map-get_or (λ b. pos b) bytes 0) in
      forward_layers-step build_layer1 [] 0 (encode_bytes bytes) (λ y hy.
        forward_layer-of build_layer1 (encode_bytes bytes) (λ k. pos (get_or bytes k 0)) 0 y
          length-input hy layer1-row)
      ∙ ap ok entries

  run-of : (net : TernaryNetwork) → net.layers ≡ build_layers → run net bytes ≡ ok bytes
  unfolding run build_layers build_layer1 encode_input decode_output
  run-of net built =
      let whole =
        forward-fits net build_layer1 _ (encode_bytes bytes) built length-input ∙ forward-bytes in
      let count : length (map (λ b. pos b) bytes) ≡ 64 =
        omega (arith, length-map bytes (λ b. pos b), len) in
      rw (whole, count, decode_bytes-map bytes h) refl

build-returns :
    (crypto : Crypto)
    → (net : TernaryNetwork) × (build crypto ≡ ok net) × (net.layers ≡ build_layers)
unfolding build build_layers build_layer1
build-returns crypto =
    let small : All HasOffsets build_layers = ((omega arith, omega arith), tt) in
    build_network-returns crypto (as_bytes "mpt_emit_record") 16384 64 build_layers small

-- `build` returns a network, and on any record of 64 bytes this network returns the same bytes.
pub mpt_emit-run :
    (crypto : Crypto) (bytes : Bytes)
    → AreBytes bytes
    → length bytes ≡ 64
    → (build crypto >>= λ net. run net bytes) ≡ ok bytes
mpt_emit-run crypto bytes h len =
    let (net, built, same) = build-returns crypto in rw built (run-of bytes h len net same)
