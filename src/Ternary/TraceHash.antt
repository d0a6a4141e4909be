-- ===== src/Ternary/TraceHash.antt =====
-- ternary_vm/src/trace_hash.rs: the hash of a run, which commits to the network's weights, the
-- input and the output, in its two versions.
use transformer_vm_bank.Base.{
  ◌^◌, ◌%◌, ◌<◌, ◌≡◌, sym, ap, ◌∙◌, ◌⊎◌, inl, inr, true, List, [], ◌++◌, arith, length, All,
  append_assoc, append-injective, ok-injective,
}
use transformer_vm_bank.Bytes.{Bytes, to_be_bytes}
use transformer_vm_bank.Bytes.Encode.{fixed_field}
use transformer_vm_bank.Crypto.{Crypto, Collision, blake3-injective}
use transformer_vm_bank.Int.{ℤ, in_i64}
use transformer_vm_bank.Ternary.Network.{TernaryNetwork}
use transformer_vm_bank.Ternary.Weights.{pack_bias}
use transformer_vm_bank.Ternary.Weights.Reads.{read_bias}
use transformer_vm_bank.Ternary.Weights.Unpack.{read_many, read_i64}

-- The length as a u32, then the values as i64s.
unfoldable pub encode_canonical : List ℤ → Bytes
encode_canonical values = to_be_bytes 4 (length values % 2 ^ 32) ++ pack_bias values

unfoldable pub trace_hash_v1 : Crypto → TernaryNetwork → (input output : List ℤ) → Bytes
trace_hash_v1 c net input output =
    c.blake3 (net.header.weights_hash ++ (encode_canonical input ++ encode_canonical output))

unfoldable pub trace_hash_v2 : Crypto → TernaryNetwork → (input output : List ℤ) → Bytes
trace_hash_v2 c net input output =
    c.blake3 (net.header.weights_hash_v2 ++ (encode_canonical input ++ encode_canonical output))

-- A vector that the encoding represents.
pub record IsEncodable (values : List ℤ) : Type 0 where
  pub count : length values < 2 ^ 32
  pub entries : All (λ v. in_i64 v ≡ true) values

encode_canonical-injective :
    (x y : List ℤ) {us vs : Bytes}
    → IsEncodable x
    → IsEncodable y
    → encode_canonical x ++ us ≡ encode_canonical y ++ vs
    → (x ≡ y) × (us ≡ vs)
unfolding encode_canonical
encode_canonical-injective x y {us} {vs} hx hy e =
    let parts =
      fixed_field 4 (length x % 2 ^ 32) (length y % 2 ^ 32) (omega arith) (omega arith)
        (simp append_assoc at e) in
    let same : length x ≡ length y = omega (arith, parts.0, hx.count, hy.count) in
    let left = read_bias x hx.entries us in
    let right = rw (sym same) at (read_bias y hy.entries vs) in
    let both = ok-injective (sym left ∙ ap (read_many read_i64 (length x)) parts.1 ∙ right) in
    (ap (λ p. p.0) both, ap (λ p. p.1) both)

-- Two runs with the same trace hash are of networks with the same weights hash, on the same input
-- and with the same output, unless the two show a BLAKE3 collision.
pub trace_hash_v2-binding :
    (c : Crypto) (n m : TernaryNetwork) (x x' y y' : List ℤ)
    → length n.header.weights_hash_v2 ≡ length m.header.weights_hash_v2
    → IsEncodable x
    → IsEncodable x'
    → IsEncodable y
    → IsEncodable y'
    → trace_hash_v2 c n x y ≡ trace_hash_v2 c m x' y'
    → ((n.header.weights_hash_v2 ≡ m.header.weights_hash_v2) × (x ≡ x') × (y ≡ y')) ⊎ Collision c
unfolding trace_hash_v2
trace_hash_v2-binding c n m x x' y y' len hx hx' hy hy' e = elim (blake3-injective c _ _ e) [
  | inr collision ↦ inr collision
  | inl same ↦
      let weights = append-injective n.header.weights_hash_v2 m.header.weights_hash_v2 len same in
      let input = encode_canonical-injective x x' hx hx' weights.1 in
      let padded : encode_canonical y ++ [] ≡ encode_canonical y' ++ [] =
        ap (λ b. b ++ []) input.1 in
      let output = encode_canonical-injective y y' hy hy' padded in
      inl (weights.0, input.0, output.0)
]
