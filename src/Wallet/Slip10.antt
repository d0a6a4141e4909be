-- ===== src/Wallet/Slip10.antt =====
-- agent_wallet/src/slip10.rs: the derivation of keys from a seed. HMAC-SHA512 is a parameter, a
-- function of the key and the message that may refuse the key.
use transformer_vm_bank.Base.{
  ℕ, ◌^◌, ◌≤◌, ◌≡◌, refl, ◌↔◌, ◌||◌, ◌==◌, false, ltb, [], ◌∷◌, ◌++◌, Option, some, take, drop,
  length, arith, Result, ok, ok_or, require, refuse_if, ◌>>=◌, ◌>>◌,
}
use transformer_vm_bank.Bytes.{Bytes, as_bytes, to_be_bytes}
use transformer_vm_bank.Crypto.{Crypto, Laws}
use transformer_vm_bank.Wallet.Errors.{
  WalletError, bad_seed_length, not_hardened, ed25519, signature_invalid,
}

abbrev pub hardened_offset : ℕ
hardened_offset = 2147483648

pub record Ed25519MasterKey : Type 0 where
  pub private_key : Bytes
  pub chain_code : Bytes

pub record Ed25519ChildKey : Type 0 where
  pub private_key : Bytes
  pub chain_code : Bytes
  pub index : ℕ

module _ (hmac_sha512 : Bytes → Bytes → Option Bytes) where
  unfoldable pub from_seed : Bytes → Result WalletError Ed25519MasterKey
  from_seed seed = do
    require (length seed == 16 || (length seed == 32 || length seed == 64))
        (bad_seed_length (length seed))
    i ← ok_or (hmac_sha512 (as_bytes "ed25519 seed") seed) (ed25519 "hmac init: ")
    ok (record { private_key = take 32 i; chain_code = drop 32 i })

  unfoldable pub derive_hardened :
      (parent_priv parent_chain : Bytes) → ℕ → Result WalletError Ed25519ChildKey
  derive_hardened parent_priv parent_chain index = do
    refuse_if (ltb index hardened_offset) (not_hardened index)
    i ←
        ok_or (hmac_sha512 parent_chain (0 ∷ [] ++ (parent_priv ++ to_be_bytes 4 index)))
          (ed25519 "hmac init: ")
    ok (record { private_key = take 32 i; chain_code = drop 32 i; index = index })

  unfoldable pub derive_child : Ed25519MasterKey → ℕ → Result WalletError Ed25519ChildKey
  derive_child key index = derive_hardened key.private_key key.chain_code index

  -- `Ed25519ChildKey::derive_child`
  unfoldable pub derive_grandchild : Ed25519ChildKey → ℕ → Result WalletError Ed25519ChildKey
  derive_grandchild key index = derive_hardened key.private_key key.chain_code index

  -- With a function that takes every key, derivation succeeds exactly on hardened indices.
  pub derive_hardened-ok_iff :
      (parent_priv parent_chain : Bytes) (index : ℕ)
      → ((key message : Bytes) → (out : Bytes) × (hmac_sha512 key message ≡ some out))
      → ((child : Ed25519ChildKey) × (derive_hardened parent_priv parent_chain index ≡ ok child))
        ↔ (2 ^ 31 ≤ index)
  unfolding derive_hardened
  derive_hardened-ok_iff parent_priv parent_chain index total =
      let (out, e) = total parent_chain (0 ∷ [] ++ (parent_priv ++ to_be_bytes 4 index)) in
      (
        λ (child, h). ground arith,
        λ h.
            let child : Ed25519ChildKey = record {
              private_key = take 32 out;
              chain_code = drop 32 out;
              index = index;
            } in
            let hardened : ltb index hardened_offset ≡ false = ground arith in
            (child, rw (hardened, e) refl),
      )

module _ (c : Crypto) where
  -- `public_key` and `sign` of a child key; those of the master key differ in its type alone.
  unfoldable pub public_key : Ed25519ChildKey → Bytes
  public_key key = c.verifying_key key.private_key

  unfoldable pub sign : Ed25519ChildKey → Bytes → Bytes
  sign key msg = c.sign_message key.private_key msg

  unfoldable pub verify : (pubkey msg sig : Bytes) → Result WalletError (Unit {0})
  verify pubkey msg sig = require (c.check_signature pubkey msg sig) signature_invalid

-- What a child key signs verifies under its public key.
pub verify-sign :
    {c : Crypto}
    → Laws c
    → (key : Ed25519ChildKey) (msg : Bytes)
    → verify c (public_key c key) msg (sign c key msg) ≡ ok tt
unfolding verify public_key sign
verify-sign l key msg = rw (l.check-sign key.private_key msg) refl
