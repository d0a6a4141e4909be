-- ===== src/Wallet/Rotation.antt =====
-- agent_wallet/src/rotation.rs: the signed mapping from an old child key to a new one.
use transformer_vm_bank.Base.{
  ℕ, ◌≡◌, refl, ◌++◌, ◌^◌, ◌<◌, [], arith, length, append-injective, replicate, Result, ok, require,
  ◌>>◌,
}
use transformer_vm_bank.Bytes.{Bytes, as_bytes, to_be_bytes}
use transformer_vm_bank.Bytes.Encode.{u64_field, to_be_bytes-injective}
use transformer_vm_bank.Crypto.{Crypto, Laws}
use transformer_vm_bank.Wallet.Errors.{WalletError}

pub record KeyRotation : Type 0 where
  pub parent_pubkey : Bytes
  pub old_child_pubkey : Bytes
  pub new_child_pubkey : Bytes
  pub rotated_at_unix : ℕ
  pub policy_version : ℕ
  pub sig : Bytes

unfoldable pub canonical_bytes : KeyRotation → Bytes
canonical_bytes m =
    as_bytes "PSL-KEY-ROTATION-V1"
    ++ (m.parent_pubkey
        ++ (m.old_child_pubkey
            ++ (m.new_child_pubkey
                ++ (to_be_bytes 8 m.rotated_at_unix ++ to_be_bytes 8 m.policy_version))))

module _ (c : Crypto) where
  unfoldable pub sign : Bytes → Bytes → Bytes → ℕ → ℕ → KeyRotation
  sign signer old_child_pubkey new_child_pubkey rotated_at_unix policy_version =
      let m : KeyRotation = record {
        parent_pubkey = c.verifying_key signer;
        old_child_pubkey = old_child_pubkey;
        new_child_pubkey = new_child_pubkey;
        rotated_at_unix = rotated_at_unix;
        policy_version = policy_version;
        sig = replicate 64 0;
      } in
      record m { sig = c.sign_message signer (canonical_bytes m) }

  unfoldable pub verify : KeyRotation → Result WalletError (Unit {0})
  verify m = do
    require (c.valid_key m.parent_pubkey) (WalletError.ed25519 "parent pubkey")
    require (c.check_signature m.parent_pubkey (canonical_bytes m) m.sig)
        WalletError.signature_invalid

-- What the Rust types give: the widths of the arrays and integers, and lengths that fit a u32.
pub record IsWire (m : KeyRotation) : Type 0 where
  pub parent_pubkey_len : length m.parent_pubkey ≡ 32
  pub old_child_pubkey_len : length m.old_child_pubkey ≡ 32
  pub new_child_pubkey_len : length m.new_child_pubkey ≡ 32
  pub rotated_at_unix_u64 : m.rotated_at_unix < 256 ^ 8
  pub policy_version_u64 : m.policy_version < 256 ^ 8

abbrev pub unsigned : KeyRotation → KeyRotation
unsigned m = record m { sig = [] }

-- The canonical bytes determine every field but the signature.
pub canonical_bytes-injective :
    (m n : KeyRotation)
    → IsWire m
    → IsWire n
    → canonical_bytes m ≡ canonical_bytes n
    → unsigned m ≡ unsigned n
unfolding canonical_bytes
canonical_bytes-injective m n hm hn e =
    let t =
      append-injective (as_bytes "PSL-KEY-ROTATION-V1") (as_bytes "PSL-KEY-ROTATION-V1") refl e in
    let f0 = append-injective m.parent_pubkey n.parent_pubkey (omega arith) t.1 in
    let f1 = append-injective m.old_child_pubkey n.old_child_pubkey (omega arith) f0.1 in
    let f2 = append-injective m.new_child_pubkey n.new_child_pubkey (omega arith) f1.1 in
    let f3 =
      u64_field m.rotated_at_unix n.rotated_at_unix hm.rotated_at_unix_u64 hn.rotated_at_unix_u64
        f2.1 in
    let f4 =
      to_be_bytes-injective 8 m.policy_version n.policy_version hm.policy_version_u64
        hn.policy_version_u64 f3.1 in
    ground arith

-- A message that `sign` makes names the signer, and verifies.
pub verify-sign :
    {c : Crypto}
    → Laws c
    → (signer : Bytes) (old_child_pubkey : Bytes) (new_child_pubkey : Bytes) (rotated_at_unix : ℕ)
      (policy_version : ℕ)
    → verify c (sign c signer old_child_pubkey new_child_pubkey rotated_at_unix policy_version)
      ≡ ok tt
unfolding verify sign canonical_bytes
verify-sign l signer old_child_pubkey new_child_pubkey rotated_at_unix policy_version =
    rw (l.valid-verifying_key signer, l.check-sign signer _)
