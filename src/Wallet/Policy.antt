-- ===== src/Wallet/Policy.antt =====
-- `KeyPolicy` and `PolicyEnvelope` of agent_wallet/src/policy.rs. A `String` is given by its UTF-8
-- bytes.
use transformer_vm_bank.Base.{
  ℕ, ◌≡◌, refl, ◌≢◌, ◌++◌, ◌^◌, ◌%◌, ◌<◌, ◌||◌, Bool, not, List, [], ◌∷◌, arith, length, All, any,
  is_empty, append-injective, append_assoc, Result, ok, err, require, refuse_if, ◌>>◌, ◌⊎◌, inl,
  inr, Bool-cases,
}
use transformer_vm_bank.Bytes.{Bytes, as_bytes, to_be_bytes, push_bytes, bytes_eq, bytes_eq_iff}
use transformer_vm_bank.Bytes.Encode.{push_bytes-injective, u64_field, fixed_field}
use transformer_vm_bank.Crypto.{Crypto, Laws}
use transformer_vm_bank.Wallet.Errors.{WalletError}

pub record KeyPolicy : Type 0 where
  pub child_pubkey : Bytes
  pub parent_pubkey : Bytes
  pub cap_per_window : ℕ
  pub window_secs : ℕ
  pub allowed_contracts : List Bytes
  pub allowed_counterparties : List Bytes
  pub expiry_unix : ℕ
  pub version : ℕ

-- The loops over the two allow lists.
unfoldable pub push_all : List Bytes → Bytes
push_all [] = []
push_all (b ∷ bs) = push_bytes b ++ push_all bs

unfoldable pub concat_all : List Bytes → Bytes
concat_all [] = []
concat_all (b ∷ bs) = b ++ concat_all bs

unfoldable pub canonical_bytes : KeyPolicy → Bytes
canonical_bytes p =
    as_bytes "PSL-KEY-POLICY-V1"
    ++ (p.child_pubkey
        ++ (p.parent_pubkey
            ++ (to_be_bytes 16 p.cap_per_window
                ++ (to_be_bytes 8 p.window_secs
                    ++ (to_be_bytes 8 p.expiry_unix
                        ++ (to_be_bytes 8 p.version
                            ++ (to_be_bytes 4 (length p.allowed_contracts % 2 ^ 32)
                                ++ (push_all p.allowed_contracts
                                    ++ (to_be_bytes 4 (length p.allowed_counterparties % 2 ^ 32)
                                        ++ concat_all p.allowed_counterparties)))))))))

unfoldable pub allows_contract : KeyPolicy → Bytes → Bool
allows_contract p contract =
    is_empty p.allowed_contracts || any (λ n. bytes_eq n contract) p.allowed_contracts

unfoldable pub allows_counterparty : KeyPolicy → Bytes → Bool
allows_counterparty p cp =
    is_empty p.allowed_counterparties || any (λ k. bytes_eq k cp) p.allowed_counterparties

pub record PolicyEnvelope : Type 0 where
  pub policy : KeyPolicy
  pub sig : Bytes

module _ (c : Crypto) where
  unfoldable pub sign : Bytes → KeyPolicy → Result WalletError PolicyEnvelope
  sign parent p = do
    refuse_if (not (bytes_eq (c.verifying_key parent) p.parent_pubkey))
        WalletError.policy_signature_invalid
    ok (record { policy = p; sig = c.sign_message parent (canonical_bytes p) })

  unfoldable pub verify : PolicyEnvelope → Result WalletError (Unit {0})
  verify e = do
    require (c.valid_key e.policy.parent_pubkey) (WalletError.ed25519 "parent pubkey")
    require (c.check_signature e.policy.parent_pubkey (canonical_bytes e.policy) e.sig)
        WalletError.policy_signature_invalid

-- What the Rust types give: the widths of the arrays and integers, and lengths that fit a u32.
pub record IsWire (p : KeyPolicy) : Type 0 where
  pub child_len : length p.child_pubkey ≡ 32
  pub parent_len : length p.parent_pubkey ≡ 32
  pub cap_u128 : p.cap_per_window < 256 ^ 16
  pub window_u64 : p.window_secs < 256 ^ 8
  pub expiry_u64 : p.expiry_unix < 256 ^ 8
  pub version_u64 : p.version < 256 ^ 8
  pub contracts_len : length p.allowed_contracts < 2 ^ 32
  pub contract_lens : All (λ n. length n < 2 ^ 32) p.allowed_contracts
  pub counterparties_len : length p.allowed_counterparties < 2 ^ 32
  pub counterparty_lens : All (λ k. length k ≡ 32) p.allowed_counterparties

push_all-injective :
    (xs ys : List Bytes) {us vs : Bytes}
    → length xs ≡ length ys
    → All (λ n. length n < 2 ^ 32) xs
    → All (λ n. length n < 2 ^ 32) ys
    → push_all xs ++ us ≡ push_all ys ++ vs
    → (xs ≡ ys) × (us ≡ vs)
unfolding push_all
push_all-injective [] [] l hx hy e = (refl, e)
push_all-injective [] (y ∷ ys) l hx hy e = absurd (omega arith)
push_all-injective (x ∷ xs) [] l hx hy e = absurd (omega arith)
push_all-injective (x ∷ xs) (y ∷ ys) {us} {vs} l hx hy e =
    let (first, others) = push_bytes-injective x y hx.0 hy.0 (simp append_assoc at e) in
    let (same, after) = push_all-injective xs ys (omega arith) hx.1 hy.1 others in (cc, after)

concat_all-injective :
    (xs ys : List Bytes)
    → length xs ≡ length ys
    → All (λ k. length k ≡ 32) xs
    → All (λ k. length k ≡ 32) ys
    → concat_all xs ≡ concat_all ys
    → xs ≡ ys
unfolding concat_all
concat_all-injective [] [] l hx hy e = refl
concat_all-injective [] (y ∷ ys) l hx hy e = absurd (omega arith)
concat_all-injective (x ∷ xs) [] l hx hy e = absurd (omega arith)
concat_all-injective (x ∷ xs) (y ∷ ys) l hx hy e =
    let (first, others) = append-injective x y (omega (arith, hx.0, hy.0)) e in
    let rest = concat_all-injective xs ys (omega arith) hx.1 hy.1 others in cc

-- Two policies with the same canonical bytes are the same policy: the signature of the parent covers
-- every field, the two allow lists included.
pub canonical_bytes-injective :
    (p q : KeyPolicy) → IsWire p → IsWire q → canonical_bytes p ≡ canonical_bytes q → p ≡ q
unfolding canonical_bytes
canonical_bytes-injective p q hp hq e =
    let t = append-injective (as_bytes "PSL-KEY-POLICY-V1") (as_bytes "PSL-KEY-POLICY-V1") refl e in
    let child = append-injective p.child_pubkey q.child_pubkey (omega arith) t.1 in
    let parent = append-injective p.parent_pubkey q.parent_pubkey (omega arith) child.1 in
    let cap = fixed_field 16 p.cap_per_window q.cap_per_window hp.cap_u128 hq.cap_u128 parent.1 in
    let window = u64_field p.window_secs q.window_secs hp.window_u64 hq.window_u64 cap.1 in
    let expiry = u64_field p.expiry_unix q.expiry_unix hp.expiry_u64 hq.expiry_u64 window.1 in
    let version = u64_field p.version q.version hp.version_u64 hq.version_u64 expiry.1 in
    let count =
      fixed_field 4 (length p.allowed_contracts % 2 ^ 32) (length q.allowed_contracts % 2 ^ 32)
        (omega arith) (omega arith) version.1 in
    let names =
      push_all-injective p.allowed_contracts q.allowed_contracts
        (omega (arith, hp.contracts_len, hq.contracts_len, count.0)) hp.contract_lens
        hq.contract_lens count.1 in
    let count' =
      fixed_field 4 (length p.allowed_counterparties % 2 ^ 32)
        (length q.allowed_counterparties % 2 ^ 32) (omega arith) (omega arith) names.1 in
    let keys =
      concat_all-injective p.allowed_counterparties q.allowed_counterparties
        (omega (arith, hp.counterparties_len, hq.counterparties_len, count'.0)) hp.counterparty_lens
        hq.counterparty_lens count'.1 in
    ground arith

-- The envelope of a policy is made exactly by the key that the policy names as its parent, and then
-- it verifies.
pub sign-verify :
    {c : Crypto}
    → Laws c
    → (parent : Bytes) (p : KeyPolicy)
    → ((c.verifying_key parent ≢ p.parent_pubkey)
        × (sign c parent p ≡ err WalletError.policy_signature_invalid))
      ⊎ ((e : PolicyEnvelope) × (sign c parent p ≡ ok e) × (e.policy ≡ p) × (verify c e ≡ ok tt))
unfolding sign verify
sign-verify {c} l parent p = elim (Bool-cases (bytes_eq (c.verifying_key parent) p.parent_pubkey)) [
  | inr other ↦
      inl (λ e. ground (arith, bytes_eq_iff (c.verifying_key parent) p.parent_pubkey), ground arith)
  | inl same ↦ inr (
    record { policy = p; sig = c.sign_message parent (canonical_bytes p) },
    ground arith,
    refl,
    ground (
      arith,
      bytes_eq_iff (c.verifying_key parent) p.parent_pubkey,
      l.valid-verifying_key parent,
      l.check-sign parent (canonical_bytes p),
    ),
  )
]
