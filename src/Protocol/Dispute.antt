-- ===== src/Protocol/Dispute.antt =====
-- agent_protocol/src/dispute.rs: the `Dispute` message and its resolution by re-execution.
pub mod Resolution
use transformer_vm_bank.Base.{
  ℕ, ◌≡◌, refl, ◌++◌, ◌^◌, ◌<◌, [], arith, length, append-injective, replicate, Result, ok, err,
  require, ◌>>◌, ◌>>=◌, if◌then◌else◌, true, false,
}
use transformer_vm_bank.Bytes.{Bytes, as_bytes, to_be_bytes, push_bytes, bytes_eq}
use transformer_vm_bank.Bytes.Encode.{push_bytes-injective, u64_field, to_be_bytes-injective}
use transformer_vm_bank.Crypto.{Crypto, Laws}
use transformer_vm_bank.Contracts.Errors.{ContractError}
use transformer_vm_bank.Protocol.Errors.{ProposalHash, ProtocolError}
use transformer_vm_bank.Protocol.Propose
use transformer_vm_bank.Protocol.Propose.{Propose}
use transformer_vm_bank.Protocol.Execute
use transformer_vm_bank.Protocol.Execute.{Execute}

pub record Dispute : Type 0 where
  pub proposal_hash : ProposalHash
  pub witness : Bytes
  pub claimed_output : Bytes
  pub disputer : Bytes
  pub opened_at_unix : ℕ
  pub sig : Bytes

unfoldable pub canonical_bytes : Dispute → Bytes
canonical_bytes m =
    as_bytes "PSL-DISPUTE-V1"
    ++ (m.proposal_hash
        ++ (push_bytes m.witness
            ++ (push_bytes m.claimed_output ++ (m.disputer ++ to_be_bytes 8 m.opened_at_unix))))

module _ (c : Crypto) where
  unfoldable pub sign : Bytes → ProposalHash → Bytes → Bytes → ℕ → Dispute
  sign signer proposal_hash witness claimed_output opened_at_unix =
      let m : Dispute = record {
        proposal_hash = proposal_hash;
        witness = witness;
        claimed_output = claimed_output;
        disputer = c.verifying_key signer;
        opened_at_unix = opened_at_unix;
        sig = replicate 64 0;
      } in
      record m { sig = c.sign_message signer (canonical_bytes m) }

  unfoldable pub verify : Dispute → Result ProtocolError (Unit {0})
  verify m = do
    require (c.valid_key m.disputer) (ProtocolError.ed25519 "disputer pk")
    require (c.check_signature m.disputer (canonical_bytes m) m.sig) ProtocolError.signature_invalid

-- What the Rust types give: the widths of the arrays and integers, and lengths that fit a u32.
pub record IsWire (m : Dispute) : Type 0 where
  pub proposal_hash_len : length m.proposal_hash ≡ 32
  pub witness_len : length m.witness < 2 ^ 32
  pub claimed_output_len : length m.claimed_output < 2 ^ 32
  pub disputer_len : length m.disputer ≡ 32
  pub opened_at_unix_u64 : m.opened_at_unix < 256 ^ 8

abbrev pub unsigned : Dispute → Dispute
unsigned m = record m { sig = [] }

-- The canonical bytes determine every field but the signature.
pub canonical_bytes-injective :
    (m n : Dispute)
    → IsWire m
    → IsWire n
    → canonical_bytes m ≡ canonical_bytes n
    → unsigned m ≡ unsigned n
unfolding canonical_bytes
canonical_bytes-injective m n hm hn e =
    let t = append-injective (as_bytes "PSL-DISPUTE-V1") (as_bytes "PSL-DISPUTE-V1") refl e in
    let f0 = append-injective m.proposal_hash n.proposal_hash (omega arith) t.1 in
    let f1 = push_bytes-injective m.witness n.witness hm.witness_len hn.witness_len f0.1 in
    let f2 =
      push_bytes-injective m.claimed_output n.claimed_output hm.claimed_output_len
        hn.claimed_output_len f1.1 in
    let f3 = append-injective m.disputer n.disputer (omega arith) f2.1 in
    let f4 =
      to_be_bytes-injective 8 m.opened_at_unix n.opened_at_unix hm.opened_at_unix_u64
        hn.opened_at_unix_u64 f3.1 in
    ground arith

-- A message that `sign` makes names the signer, and verifies.
pub verify-sign :
    {c : Crypto}
    → Laws c
    → (signer : Bytes) (proposal_hash : ProposalHash) (witness : Bytes) (claimed_output : Bytes)
      (opened_at_unix : ℕ)
    → verify c (sign c signer proposal_hash witness claimed_output opened_at_unix) ≡ ok tt
unfolding verify sign canonical_bytes
verify-sign l signer proposal_hash witness claimed_output opened_at_unix =
    rw (l.valid-verifying_key signer, l.check-sign signer _)

pub data DisputeOutcome : Type 0 where
  slash_executor : Bytes → Bytes → DisputeOutcome
  dismiss_dispute : Bytes → Bytes → DisputeOutcome

-- `contract.run(..)?`: an error of the contract becomes one of the protocol.
abbrev pub contract_result : Result ContractError Bytes → Result ProtocolError Bytes
contract_result (ok out) = ok out
contract_result (err e) = err (ProtocolError.contract e)

-- `run` is the method `run` of the contract, an implementor of the trait `TernaryProgram`.
unfoldable pub resolve_dispute :
    Crypto
    → (Bytes → Result ContractError Bytes)
    → Propose
    → Execute
    → Dispute
    → Result ProtocolError DisputeOutcome
resolve_dispute c run p x d = do
  _ ← Propose.verify c p
  _ ← Execute.verify c x
  _ ← verify c d
  _ ←
      require (bytes_eq d.proposal_hash x.proposal_hash)
        (ProtocolError.proposal_hash_mismatch x.proposal_hash d.proposal_hash)
  actual ← contract_result (run d.witness)
  if bytes_eq x.expected_output actual
      then ok (dismiss_dispute d.disputer actual)
      else ok (slash_executor x.by actual)
