-- ===== src/Wallet/Revocation.antt =====
-- agent_wallet/src/revocation.rs: signed revocations and the set of revoked keys.
use transformer_vm_bank.Base.{
  ℕ, ◌≡◌, refl, ◌++◌, ◌^◌, ◌<◌, [], arith, length, append-injective, replicate, Result, ok, require,
  ◌>>◌,
}
use transformer_vm_bank.Bytes.{Bytes, as_bytes, to_be_bytes}
use transformer_vm_bank.Bytes.Encode.{to_be_bytes-injective}
use transformer_vm_bank.Crypto.{Crypto, Laws}
use transformer_vm_bank.Wallet.Errors.{WalletError}

pub record Revocation : Type 0 where
  pub revoked_pubkey : Bytes
  pub parent_pubkey : Bytes
  pub reason_hash : Bytes
  pub revoked_at_unix : ℕ
  pub sig : Bytes

unfoldable pub canonical_bytes : Revocation → Bytes
canonical_bytes m =
    as_bytes "PSL-KEY-REVOCATION-V1"
    ++ (m.revoked_pubkey ++ (m.parent_pubkey ++ (m.reason_hash ++ to_be_bytes 8 m.revoked_at_unix)))

module _ (c : Crypto) where
  unfoldable pub sign : Bytes → Bytes → Bytes → ℕ → Revocation
  sign signer revoked_pubkey reason_hash revoked_at_unix =
      let m : Revocation = record {
        revoked_pubkey = revoked_pubkey;
        parent_pubkey = c.verifying_key signer;
        reason_hash = reason_hash;
        revoked_at_unix = revoked_at_unix;
        sig = replicate 64 0;
      } in
      record m { sig = c.sign_message signer (canonical_bytes m) }

  unfoldable pub verify : Revocation → Result WalletError (Unit {0})
  verify m = do
    require (c.valid_key m.parent_pubkey) (WalletError.ed25519 "parent pubkey")
    require (c.check_signature m.parent_pubkey (canonical_bytes m) m.sig)
        WalletError.signature_invalid

-- What the Rust types give: the widths of the arrays and integers, and lengths that fit a u32.
pub record IsWire (m : Revocation) : Type 0 where
  pub revoked_pubkey_len : length m.revoked_pubkey ≡ 32
  pub parent_pubkey_len : length m.parent_pubkey ≡ 32
  pub reason_hash_len : length m.reason_hash ≡ 32
  pub revoked_at_unix_u64 : m.revoked_at_unix < 256 ^ 8

abbrev pub unsigned : Revocation → Revocation
unsigned m = record m { sig = [] }

-- The canonical bytes determine every field but the signature.
pub canonical_bytes-injective :
    (m n : Revocation)
    → IsWire m
    → IsWire n
    → canonical_bytes m ≡ canonical_bytes n
    → unsigned m ≡ unsigned n
unfolding canonical_bytes
canonical_bytes-injective m n hm hn e =
    let t =
      append-injective (as_bytes "PSL-KEY-REVOCATION-V1") (as_bytes "PSL-KEY-REVOCATION-V1") refl
        e in
    let f0 = append-injective m.revoked_pubkey n.revoked_pubkey (omega arith) t.1 in
    let f1 = append-injective m.parent_pubkey n.parent_pubkey (omega arith) f0.1 in
    let f2 = append-injective m.reason_hash n.reason_hash (omega arith) f1.1 in
    let f3 =
      to_be_bytes-injective 8 m.revoked_at_unix n.revoked_at_unix hm.revoked_at_unix_u64
        hn.revoked_at_unix_u64 f2.1 in
    ground arith

-- A message that `sign` makes names the signer, and verifies.
pub verify-sign :
    {c : Crypto}
    → Laws c
    → (signer : Bytes) (revoked_pubkey : Bytes) (reason_hash : Bytes) (revoked_at_unix : ℕ)
    → verify c (sign c signer revoked_pubkey reason_hash revoked_at_unix) ≡ ok tt
unfolding verify sign canonical_bytes
verify-sign l signer revoked_pubkey reason_hash revoked_at_unix =
    rw (l.valid-verifying_key signer, l.check-sign signer _)
