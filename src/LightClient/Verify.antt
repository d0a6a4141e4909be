-- ===== src/LightClient/Verify.antt =====
-- light_client/src/lib.rs: `verify_balance`.
use transformer_vm_bank.Base.{
  ℕ, ◌+◌, Option, none, some, List, [], ◌∷◌, Result, ok, err, require, ◌>>=◌, if◌then◌else◌, length,
  ◌==◌,
}
use transformer_vm_bank.Bytes.{Bytes, bytes_eq}
use transformer_vm_bank.Crypto.{Crypto, SigError}
use transformer_vm_bank.Account.{balance}
use transformer_vm_bank.Smt.{MerkleProof, verify_proof}
use transformer_vm_bank.LightClient.Header.{SignedHeader, verify_header, full_hash}

pub data VerifyError : Type 0 where
  genesis_mismatch : VerifyError
  header_chain_broken : ℕ → VerifyError
  invalid_signature : ℕ → VerifyError
  proof_failed : VerifyError

-- `map_err(|_| VerifyError::InvalidSignature(block_n))?`
abbrev pub signature_result : ℕ → Result SigError (Unit {0}) → Result VerifyError (Unit {0})
signature_result n (ok _) = ok tt
signature_result n (err e) = err (invalid_signature n)

-- The link check of one header: against the hash before it, or the genesis root.
unfoldable pub check_link : Bytes → ℕ → Option Bytes → SignedHeader → Result VerifyError (Unit {0})
check_link genesis_root i (some p) s =
    require (bytes_eq s.header.parent_hash p) (header_chain_broken i)
check_link genesis_root i none s =
    require (bytes_eq s.header.prev_state_root genesis_root) genesis_mismatch

module _ (c : Crypto) where
  -- The loop over the headers from index `i`, with `prev_hash`.
  unfoldable pub check_headers :
      Bytes → Bytes → ℕ → Option Bytes → List SignedHeader → Result VerifyError (Unit {0})
  check_headers genesis_root expected_signer i prev_hash [] = ok tt
  check_headers genesis_root expected_signer i prev_hash (s ∷ headers) = do
    _ ← check_link genesis_root i prev_hash s
    _ ← signature_result s.header.block_n (verify_header c expected_signer s)
    check_headers genesis_root expected_signer (i + 1) (some (full_hash c s)) headers

-- `headers[headers.len() - 1]` of a list that begins with `s`.
abbrev pub last_header : SignedHeader → List SignedHeader → SignedHeader
last_header s [] = s
last_header s (t ∷ headers) = last_header t headers

-- The balance of a 64-byte value, and 0 otherwise.
unfoldable pub value_balance : Bytes → ℕ
value_balance value = if length value == 64 then balance (record { bytes = value }) else 0

module _ (c : Crypto) where
  unfoldable pub verify_balance :
      Bytes → List SignedHeader → Bytes → Bytes → MerkleProof → Result VerifyError ℕ
  verify_balance genesis_root [] expected_signer account_pubkey p = err (header_chain_broken 0)
  verify_balance genesis_root (s ∷ headers) expected_signer account_pubkey p = do
    _ ← check_headers c genesis_root expected_signer 0 none (s ∷ headers)
    _ ←
        require (verify_proof c (last_header s headers).header.new_state_root account_pubkey p)
          proof_failed
    ok (value_balance p.value)
