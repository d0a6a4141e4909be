-- ===== src/Protocol/Registration.antt =====
-- agent_protocol/src/registry.rs: the signed record that an agent publishes of itself. A `String` is
-- given by its UTF-8 bytes.
use transformer_vm_bank.Base.{
  ℕ, ◌≡◌, refl, ◌++◌, ◌%◌, ◌^◌, ◌<◌, Bool, List, [], ◌∷◌, arith, length, All, any, append-injective,
  append_assoc, replicate, Result, ok, require, ◌>>◌,
}
use transformer_vm_bank.Bytes.{Bytes, as_bytes, to_be_bytes, push_bytes, bytes_eq}
use transformer_vm_bank.Bytes.Encode.{push_bytes-injective, fixed_field, to_be_bytes-injective}
use transformer_vm_bank.Crypto.{Crypto, Laws}
use transformer_vm_bank.Protocol.Errors.{ProtocolError}

pub record AgentRegistration : Type 0 where
  pub pubkey : Bytes
  pub endpoint : Bytes
  pub supported_contracts : List Bytes
  pub custom_program_hashes : List Bytes
  pub display_name : Bytes
  pub fee_schedule : Bytes
  pub bond_amount : ℕ
  pub version : ℕ
  pub sig : Bytes

-- The loops of `push_str_list` and over the program hashes.
unfoldable pub push_strs : List Bytes → Bytes
push_strs [] = []
push_strs (s ∷ ss) = push_bytes s ++ push_strs ss

unfoldable pub concat_arrays : List Bytes → Bytes
concat_arrays [] = []
concat_arrays (h ∷ hs) = h ++ concat_arrays hs

unfoldable pub canonical_bytes : AgentRegistration → Bytes
canonical_bytes m =
    as_bytes "PSL-AGENT-REGISTRATION-V1"
    ++ (m.pubkey
        ++ (push_bytes m.endpoint
            ++ (to_be_bytes 4 (length m.supported_contracts % 2 ^ 32)
                ++ (push_strs m.supported_contracts
                    ++ (to_be_bytes 4 (length m.custom_program_hashes % 2 ^ 32)
                        ++ (concat_arrays m.custom_program_hashes
                            ++ (push_bytes m.display_name
                                ++ (push_bytes m.fee_schedule
                                    ++ (to_be_bytes 16 m.bond_amount
                                        ++ to_be_bytes 8 m.version)))))))))

module _ (c : Crypto) where
  unfoldable pub sign :
      Bytes
      → (endpoint : Bytes) (supported_contracts custom_program_hashes : List Bytes)
        (display_name fee_schedule : Bytes) (bond_amount version : ℕ)
      → AgentRegistration
  sign signer endpoint supported_contracts custom_program_hashes display_name fee_schedule
        bond_amount version =
      let m : AgentRegistration = record {
        pubkey = c.verifying_key signer;
        endpoint = endpoint;
        supported_contracts = supported_contracts;
        custom_program_hashes = custom_program_hashes;
        display_name = display_name;
        fee_schedule = fee_schedule;
        bond_amount = bond_amount;
        version = version;
        sig = replicate 64 0;
      } in
      record m { sig = c.sign_message signer (canonical_bytes m) }

  unfoldable pub verify : AgentRegistration → Result ProtocolError (Unit {0})
  verify m = do
    require (c.valid_key m.pubkey) (ProtocolError.ed25519 "agent pubkey")
    require (c.check_signature m.pubkey (canonical_bytes m) m.sig) ProtocolError.signature_invalid

unfoldable pub supports : AgentRegistration → Bytes → Bool
supports m contract = any (λ s. bytes_eq s contract) m.supported_contracts

-- What the Rust types give: the widths of the arrays and integers, and lengths that fit a u32.
pub record IsWire (m : AgentRegistration) : Type 0 where
  pub pubkey_len : length m.pubkey ≡ 32
  pub endpoint_len : length m.endpoint < 2 ^ 32
  pub contracts_len : length m.supported_contracts < 2 ^ 32
  pub contract_lens : All (λ s. length s < 2 ^ 32) m.supported_contracts
  pub hashes_len : length m.custom_program_hashes < 2 ^ 32
  pub hash_lens : All (λ h. length h ≡ 32) m.custom_program_hashes
  pub display_name_len : length m.display_name < 2 ^ 32
  pub fee_schedule_len : length m.fee_schedule < 2 ^ 32
  pub bond_amount_u128 : m.bond_amount < 256 ^ 16
  pub version_u64 : m.version < 256 ^ 8

abbrev pub unsigned : AgentRegistration → AgentRegistration
unsigned m = record m { sig = [] }

push_strs-injective :
    (xs ys : List Bytes) {us vs : Bytes}
    → length xs ≡ length ys
    → All (λ s. length s < 2 ^ 32) xs
    → All (λ s. length s < 2 ^ 32) ys
    → push_strs xs ++ us ≡ push_strs ys ++ vs
    → (xs ≡ ys) × (us ≡ vs)
unfolding push_strs
push_strs-injective [] [] l hx hy e = (refl, e)
push_strs-injective [] (y ∷ ys) l hx hy e = absurd (omega arith)
push_strs-injective (x ∷ xs) [] l hx hy e = absurd (omega arith)
push_strs-injective (x ∷ xs) (y ∷ ys) {us} {vs} l hx hy e =
    let first = push_bytes-injective x y hx.0 hy.0 (simp append_assoc at e) in
    let rest = push_strs-injective xs ys (omega arith) hx.1 hy.1 first.1 in (cc, rest.1)

concat_arrays-injective :
    (xs ys : List Bytes) {us vs : Bytes}
    → length xs ≡ length ys
    → All (λ h. length h ≡ 32) xs
    → All (λ h. length h ≡ 32) ys
    → concat_arrays xs ++ us ≡ concat_arrays ys ++ vs
    → (xs ≡ ys) × (us ≡ vs)
unfolding concat_arrays
concat_arrays-injective [] [] l hx hy e = (refl, e)
concat_arrays-injective [] (y ∷ ys) l hx hy e = absurd (omega arith)
concat_arrays-injective (x ∷ xs) [] l hx hy e = absurd (omega arith)
concat_arrays-injective (x ∷ xs) (y ∷ ys) {us} {vs} l hx hy e =
    let first = append-injective x y (omega (arith, hx.0, hy.0)) (simp append_assoc at e) in
    let rest = concat_arrays-injective xs ys (omega arith) hx.1 hy.1 first.1 in (cc, rest.1)

-- The canonical bytes determine every field but the signature, the two lists included.
pub canonical_bytes-injective :
    (m n : AgentRegistration)
    → IsWire m
    → IsWire n
    → canonical_bytes m ≡ canonical_bytes n
    → unsigned m ≡ unsigned n
unfolding canonical_bytes
canonical_bytes-injective m n hm hn e =
    let t =
      append-injective (as_bytes "PSL-AGENT-REGISTRATION-V1") (as_bytes "PSL-AGENT-REGISTRATION-V1")
        refl e in
    let key =
      append-injective m.pubkey n.pubkey (omega (arith, hm.pubkey_len, hn.pubkey_len)) t.1 in
    let url = push_bytes-injective m.endpoint n.endpoint hm.endpoint_len hn.endpoint_len key.1 in
    let count =
      fixed_field 4 (length m.supported_contracts % 2 ^ 32) (length n.supported_contracts % 2 ^ 32)
        (omega arith) (omega arith) url.1 in
    let contracts =
      push_strs-injective m.supported_contracts n.supported_contracts
        (omega (arith, hm.contracts_len, hn.contracts_len, count.0)) hm.contract_lens
        hn.contract_lens count.1 in
    let count' =
      fixed_field 4 (length m.custom_program_hashes % 2 ^ 32)
        (length n.custom_program_hashes % 2 ^ 32) (omega arith) (omega arith) contracts.1 in
    let hashes =
      concat_arrays-injective m.custom_program_hashes n.custom_program_hashes
        (omega (arith, hm.hashes_len, hn.hashes_len, count'.0)) hm.hash_lens hn.hash_lens
        count'.1 in
    let name =
      push_bytes-injective m.display_name n.display_name hm.display_name_len hn.display_name_len
        hashes.1 in
    let fees =
      push_bytes-injective m.fee_schedule n.fee_schedule hm.fee_schedule_len hn.fee_schedule_len
        name.1 in
    let bond =
      fixed_field 16 m.bond_amount n.bond_amount hm.bond_amount_u128 hn.bond_amount_u128 fees.1 in
    let version =
      to_be_bytes-injective 8 m.version n.version hm.version_u64 hn.version_u64 bond.1 in
    ground arith

-- A registration that `sign` makes verifies.
pub verify-sign :
    {c : Crypto}
    → Laws c
    → (signer endpoint : Bytes) (contracts hashes : List Bytes) (display_name fees : Bytes)
      (bond version : ℕ)
    → verify c (sign c signer endpoint contracts hashes display_name fees bond version) ≡ ok tt
unfolding verify sign canonical_bytes
verify-sign l signer endpoint contracts hashes display_name fees bond version =
    rw (l.valid-verifying_key signer, l.check-sign signer _)
