-- ===== src/Crypto.antt =====
-- crypto/src/hash.rs and crypto/src/signature.rs: the wrappers of BLAKE3 and ed25519. The two
-- algorithms are third-party code (the crates blake3 and ed25519-dalek), so they are the fields of
-- a record that every definition using them takes; what the code relies on is the record `Laws`.
pub mod Toy
use transformer_vm_bank.Base.{
  ℕ, ◌≡◌, refl, ◌≢◌, ◌⊎◌, inl, inr, Bool, true, false, List, [], ◌∷◌, ◌++◌, arith, length, Result,
  ok, err, require, ◌>>◌, Bool-cases,
}
use transformer_vm_bank.Bytes.{Bytes, bytes_eq, bytes_eq_iff}

pub record Crypto : Type 0 where
  -- `SigningKey::verifying_key().to_bytes()`
  pub verifying_key : Bytes → Bytes
  -- `SigningKey::sign(message).to_bytes()`
  pub sign_message : Bytes → Bytes → Bytes
  -- whether `VerifyingKey::from_bytes(pk)` succeeds
  pub valid_key : Bytes → Bool
  -- whether `VerifyingKey::verify(message, signature)` succeeds
  pub check_signature : Bytes → Bytes → Bytes → Bool
  -- `blake3::hash`; a streamed hasher hashes what its updates append
  pub blake3 : Bytes → Bytes
  -- `blake3::Hasher`, read at 64 bytes by `finalize_xof().fill`
  pub blake3_512 : Bytes → Bytes

pub record Laws (c : Crypto) : Type 0 where
  pub check-sign :
      (sk m : Bytes) → c.check_signature (c.verifying_key sk) m (c.sign_message sk m) ≡ true
  pub valid-verifying_key : (sk : Bytes) → c.valid_key (c.verifying_key sk) ≡ true
  pub length-blake3 : (m : Bytes) → length (c.blake3 m) ≡ 32
  pub length-blake3_512 : (m : Bytes) → length (c.blake3_512 m) ≡ 64

-- Two inputs that the hash does not tell apart.
pub record Collision (c : Crypto) : Type 0 where
  pub left : Bytes
  pub right : Bytes
  pub apart : left ≢ right
  pub same_hash : c.blake3 left ≡ c.blake3 right

-- Equal digests have equal inputs, or show a collision.
pub blake3-injective : (c : Crypto) (a b : Bytes) → c.blake3 a ≡ c.blake3 b → (a ≡ b) ⊎ Collision c
blake3-injective c a b e = elim (Bool-cases (bytes_eq a b)) [
  | inl same ↦ inl ((bytes_eq_iff a b).0 same)
  | inr differ ↦ inr (record {
    left = a;
    right = b;
    apart = λ q. ground (arith, (bytes_eq_iff a b).1 q);
    same_hash = e;
  })
]

pub data SigError : Type 0 where
  invalid_public_key invalid_signature verification_failed : SigError

unfoldable pub hash_bytes : Crypto → Bytes → Bytes
hash_bytes c data' = c.blake3 data'

unfoldable pub hash_concat : Crypto → Bytes → Bytes → Bytes
hash_concat c a b = c.blake3 (a ++ b)

unfoldable pub hash_three : Crypto → Bytes → Bytes → Bytes → Bytes
hash_three c a b d = c.blake3 (a ++ (b ++ d))

unfoldable pub sign : Crypto → Bytes → Bytes → Bytes
sign c keypair message = c.sign_message keypair message

unfoldable pub verify : Crypto → Bytes → Bytes → Bytes → Result SigError (Unit {0})
verify c pubkey message signature = do
  require (c.valid_key pubkey) SigError.invalid_public_key
  require (c.check_signature pubkey message signature) SigError.verification_failed

-- `tokens.join(" ")`
unfoldable pub join_tokens : List Bytes → Bytes
join_tokens [] = []
join_tokens (token ∷ []) = token
join_tokens (token ∷ next ∷ tokens) = token ++ (32 ∷ join_tokens (next ∷ tokens))

-- `hash_trace` and `hash_trace_owned`, which differ in the type of the tokens alone.
unfoldable pub hash_trace : Crypto → List Bytes → Bytes
hash_trace c tokens = hash_bytes c (join_tokens tokens)
