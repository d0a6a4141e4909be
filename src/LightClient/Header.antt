-- ===== src/LightClient/Header.antt =====
-- light_client/src/header.rs; sequencer/src/block.rs declares the same fields with the signature
-- among them, and the same two encodings.
use transformer_vm_bank.Base.{
  ℕ, ◌≡◌, ◌++◌, ◌^◌, ◌<◌, arith, length, append-injective, append_assoc, Result, err, if◌then◌else◌,
  not, ◌⊎◌, inl, inr,
}
use transformer_vm_bank.Bytes.{Bytes, to_le_bytes, bytes_eq}
use transformer_vm_bank.Bytes.Encode.{le_field}
use transformer_vm_bank.Crypto.{
  Crypto, Collision, SigError, hash_bytes, sign, verify, blake3-injective,
}

pub record Header : Type 0 where
  pub block_n : ℕ
  pub parent_hash : Bytes
  pub prev_state_root : Bytes
  pub tx_list_hash : Bytes
  pub trace_hash : Bytes
  pub new_state_root : Bytes
  pub issuer_registry_root : Bytes
  pub timestamp_ms : ℕ
  pub sequencer_pubkey : Bytes

pub record SignedHeader : Type 0 where
  pub header : Header
  pub signature : Bytes

unfoldable pub signing_bytes : Header → Bytes
signing_bytes h =
    to_le_bytes 8 h.block_n
    ++ (h.parent_hash
        ++ (h.prev_state_root
            ++ (h.tx_list_hash
                ++ (h.trace_hash
                    ++ (h.new_state_root
                        ++ (h.issuer_registry_root
                            ++ (to_le_bytes 8 h.timestamp_ms ++ h.sequencer_pubkey)))))))

module _ (c : Crypto) where
  unfoldable pub unsigned_hash : Header → Bytes
  unsigned_hash h = hash_bytes c (signing_bytes h)

  unfoldable pub sign_header : Header → Bytes → SignedHeader
  sign_header h kp = record { header = h; signature = sign c kp (signing_bytes h) }

  unfoldable pub verify_header : Bytes → SignedHeader → Result SigError (Unit {0})
  verify_header expected s =
      if not (bytes_eq s.header.sequencer_pubkey expected)
      then err SigError.verification_failed
      else verify c s.header.sequencer_pubkey (signing_bytes s.header) s.signature

  unfoldable pub full_hash : SignedHeader → Bytes
  full_hash s = hash_bytes c (signing_bytes s.header ++ s.signature)

-- What the Rust types give.
pub record IsWire (s : SignedHeader) : Type 0 where
  pub block_n_u64 : s.header.block_n < 256 ^ 8
  pub parent_len : length s.header.parent_hash ≡ 32
  pub prev_len : length s.header.prev_state_root ≡ 32
  pub tx_list_len : length s.header.tx_list_hash ≡ 32
  pub trace_len : length s.header.trace_hash ≡ 32
  pub new_len : length s.header.new_state_root ≡ 32
  pub registry_len : length s.header.issuer_registry_root ≡ 32
  pub timestamp_u64 : s.header.timestamp_ms < 256 ^ 8
  pub pubkey_len : length s.header.sequencer_pubkey ≡ 32

signed_bytes-injective :
    (s t : SignedHeader)
    → IsWire s
    → IsWire t
    → signing_bytes s.header ++ s.signature ≡ signing_bytes t.header ++ t.signature
    → s ≡ t
unfolding signing_bytes
signed_bytes-injective s t hs ht e =
    let a = s.header in
    let b = t.header in
    let f0 = le_field a.block_n b.block_n hs.block_n_u64 ht.block_n_u64 (simp append_assoc at e) in
    let f1 =
      append-injective a.parent_hash b.parent_hash (omega (arith, hs.parent_len, ht.parent_len))
        f0.1 in
    let f2 =
      append-injective a.prev_state_root b.prev_state_root (omega (arith, hs.prev_len, ht.prev_len))
        f1.1 in
    let f3 =
      append-injective a.tx_list_hash b.tx_list_hash (omega (arith, hs.tx_list_len, ht.tx_list_len))
        f2.1 in
    let f4 =
      append-injective a.trace_hash b.trace_hash (omega (arith, hs.trace_len, ht.trace_len)) f3.1 in
    let f5 =
      append-injective a.new_state_root b.new_state_root (omega (arith, hs.new_len, ht.new_len))
        f4.1 in
    let f6 =
      append-injective a.issuer_registry_root b.issuer_registry_root
        (omega (arith, hs.registry_len, ht.registry_len)) f5.1 in
    let f7 = le_field a.timestamp_ms b.timestamp_ms hs.timestamp_u64 ht.timestamp_u64 f6.1 in
    let f8 =
      append-injective a.sequencer_pubkey b.sequencer_pubkey
        (omega (arith, hs.pubkey_len, ht.pubkey_len)) f7.1 in
    ground arith

-- The hash that links the chain identifies the signed header, signature included, unless it shows a
-- BLAKE3 collision.
pub full_hash-injective :
    (c : Crypto) (s t : SignedHeader)
    → IsWire s
    → IsWire t
    → full_hash c s ≡ full_hash c t
    → (s ≡ t) ⊎ Collision c
unfolding full_hash hash_bytes
full_hash-injective c s t hs ht e =
    elim (blake3-injective c (signing_bytes s.header ++ s.signature)
      (signing_bytes t.header ++ t.signature) e) [
        | inl same ↦ inl (signed_bytes-injective s t hs ht same)
        | inr clash ↦ inr clash
      ]
