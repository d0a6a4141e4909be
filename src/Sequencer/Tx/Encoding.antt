-- ===== src/Sequencer/Tx/Encoding.antt =====
-- What a signature covers.
use transformer_vm_bank.Base.{
  ℕ, ◌%◌, ◌^◌, ◌<◌, ◌≡◌, refl, ap, sym, ◌∙◌, ◌++◌, append_assoc, append-injective, Option, none,
  some, [], ◌∷◌, length, arith, if◌then◌else◌, ◌==◌,
}
use transformer_vm_bank.Bytes.{Bytes, to_le_bytes}
use transformer_vm_bank.Bytes.Encode.{le_field, le_fixed_field}
use transformer_vm_bank.Sequencer.Tx.{TxKind, SignedTx, kind_byte, push_array, push_vec, canonical}

-- What the Rust types give.
abbrev pub IsArray : Option Bytes → Type 0
IsArray none = Unit
IsArray (some r) = length r ≡ 32

abbrev pub IsVec : Option Bytes → Type 0
IsVec none = Unit
IsVec (some p) = length p < 2 ^ 32

pub record IsWire (tx : SignedTx) : Type 0 where
  pub asset_id_u32 : tx.asset_id < 256 ^ 4
  pub nonce_u64 : tx.nonce < 256 ^ 8
  pub signer_len : length tx.signer ≡ 32
  pub recipient_len : IsArray tx.recipient
  pub amount_len : length tx.amount ≡ 16
  pub court_order_len : IsArray tx.court_order_hash
  pub multi_payload_len : IsVec tx.multi_payload
  pub metadata_len : IsVec tx.originator_metadata

kind_of : ℕ → TxKind
kind_of n =
    if n == 0
    then TxKind.transfer
    else if n == 1
    then TxKind.mint
    else if n == 2
    then TxKind.burn
    else if n == 3
    then TxKind.freeze
    else TxKind.multi_asset

kind_of-kind_byte : (k : TxKind) → kind_of (kind_byte k) ≡ k
unfolding kind_byte kind_of
kind_of-kind_byte TxKind.transfer = refl
kind_of-kind_byte TxKind.mint = refl
kind_of-kind_byte TxKind.burn = refl
kind_of-kind_byte TxKind.freeze = refl
kind_of-kind_byte TxKind.multi_asset = refl

kind_byte-injective : (k l : TxKind) → kind_byte k ≡ kind_byte l → k ≡ l
kind_byte-injective k l e = sym (kind_of-kind_byte k) ∙ ap kind_of e ∙ kind_of-kind_byte l

push_array-injective :
    (x y : Option Bytes) {us vs : Bytes}
    → IsArray x
    → IsArray y
    → push_array x ++ us ≡ push_array y ++ vs
    → (x ≡ y) × (us ≡ vs)
unfolding push_array
push_array-injective none none hx hy e = (refl, ground arith)
push_array-injective none (some s) hx hy e = absurd (ground arith)
push_array-injective (some r) none hx hy e = absurd (ground arith)
push_array-injective (some r) (some s) {us} {vs} hx hy e =
    let rest : r ++ us ≡ s ++ vs = ground arith in
    let (same, after) = append-injective r s (omega arith) rest in (ap some same, after)

push_vec-injective :
    (x y : Option Bytes) {us vs : Bytes}
    → IsVec x
    → IsVec y
    → push_vec x ++ us ≡ push_vec y ++ vs
    → (x ≡ y) × (us ≡ vs)
unfolding push_vec
push_vec-injective none none hx hy e = (refl, ground arith)
push_vec-injective none (some s) hx hy e = absurd (ground arith)
push_vec-injective (some r) none hx hy e = absurd (ground arith)
push_vec-injective (some r) (some s) {us} {vs} hx hy e =
    let rest : (to_le_bytes 4 (length r % 2 ^ 32) ++ r) ++ us
        ≡ (to_le_bytes 4 (length s % 2 ^ 32) ++ s) ++ vs =
      ground arith in
    let (len, body) =
      le_fixed_field 4 (length r % 2 ^ 32) (length s % 2 ^ 32) (omega arith) (omega arith)
        (simp append_assoc at rest) in
    let (same, after) = append-injective r s (omega arith) body in (ap some same, after)

abbrev pub unsigned : SignedTx → SignedTx
unsigned tx = record tx { signature = [] }

cons-injective : {x y : ℕ} {xs ys : Bytes} → x ∷ xs ≡ y ∷ ys → (x ≡ y) × (xs ≡ ys)
cons-injective e = (ground arith, ground arith)

-- The encoding of one transaction is no proper beginning of another's: it determines every field but
-- the signature, and what follows it.
canonical-prefix :
    (t u : SignedTx) {us vs : Bytes}
    → IsWire t
    → IsWire u
    → canonical t ++ us ≡ canonical u ++ vs
    → (unsigned t ≡ unsigned u) × (us ≡ vs)
unfolding canonical
canonical-prefix t u {us} {vs} ht hu e =
    let flat = simp append_assoc at e in
    let k = cons-injective flat in
    let kind = kind_byte-injective t.kind u.kind k.0 in
    let f0 = le_fixed_field 4 t.asset_id u.asset_id ht.asset_id_u32 hu.asset_id_u32 k.1 in
    let f1 = le_field t.nonce u.nonce ht.nonce_u64 hu.nonce_u64 f0.1 in
    let f2 =
      append-injective t.signer u.signer (omega (arith, ht.signer_len, hu.signer_len)) f1.1 in
    let f3 = push_array-injective t.recipient u.recipient ht.recipient_len hu.recipient_len f2.1 in
    let f4 =
      append-injective t.amount u.amount (omega (arith, ht.amount_len, hu.amount_len)) f3.1 in
    let flag = cons-injective f4.1 in
    let f5 =
      push_array-injective t.court_order_hash u.court_order_hash ht.court_order_len
        hu.court_order_len flag.1 in
    let f6 =
      push_vec-injective t.multi_payload u.multi_payload ht.multi_payload_len hu.multi_payload_len
        f5.1 in
    let f7 =
      push_vec-injective t.originator_metadata u.originator_metadata ht.metadata_len hu.metadata_len
        f6.1 in
    (ground arith, f7.1)

-- Two transactions with the same canonical bytes agree in every field but the signature.
pub canonical-injective :
    (t u : SignedTx) → IsWire t → IsWire u → canonical t ≡ canonical u → unsigned t ≡ unsigned u
canonical-injective t u ht hu e =
    (canonical-prefix t u {us = []} {vs = []} ht hu (ap (λ b. b ++ []) e)).0
