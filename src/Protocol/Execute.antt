-- ===== src/Protocol/Execute.antt =====
-- `Execute` of agent_protocol/src/message.rs; `ExpectedOutput` wraps one vector of bytes.
use transformer_vm_bank.Base.{
  ℕ, ◌≡◌, refl, ◌++◌, ◌^◌, ◌<◌, [], arith, length, append-injective, replicate, Result, ok,
}
use transformer_vm_bank.Bytes.{Bytes, as_bytes, to_be_bytes, push_bytes}
use transformer_vm_bank.Bytes.Encode.{push_bytes-injective, to_be_bytes-injective}
use transformer_vm_bank.Crypto.{Crypto, Laws}
use transformer_vm_bank.Protocol.Errors.{ProposalHash, ProtocolError, verify_sig, verify_sig-sign}

pub record Execute : Type 0 where
  pub proposal_hash : ProposalHash
  pub witness : Bytes
  pub expected_output : Bytes
  pub by : Bytes
  pub executed_at_unix : ℕ
  pub sig : Bytes

unfoldable pub canonical_bytes : Execute → Bytes
canonical_bytes m =
    as_bytes "PSL-EXECUTE-V1"
    ++ (m.proposal_hash
        ++ (push_bytes m.witness
            ++ (push_bytes m.expected_output ++ (m.by ++ to_be_bytes 8 m.executed_at_unix))))

module _ (c : Crypto) where
  unfoldable pub sign : Bytes → ProposalHash → Bytes → Bytes → ℕ → Execute
  sign signer proposal_hash witness expected_output executed_at_unix =
      let m : Execute = record {
        proposal_hash = proposal_hash;
        witness = witness;
        expected_output = expected_output;
        by = c.verifying_key signer;
        executed_at_unix = executed_at_unix;
        sig = replicate 64 0;
      } in
      record m { sig = c.sign_message signer (canonical_bytes m) }

  unfoldable pub verify : Execute → Result ProtocolError (Unit {0})
  verify m = verify_sig c m.by (canonical_bytes m) m.sig

-- What the Rust types give: the widths of the arrays and integers, and lengths that fit a u32.
pub record IsWire (m : Execute) : Type 0 where
  pub proposal_hash_len : length m.proposal_hash ≡ 32
  pub witness_len : length m.witness < 2 ^ 32
  pub expected_output_len : length m.expected_output < 2 ^ 32
  pub by_len : length m.by ≡ 32
  pub executed_at_unix_u64 : m.executed_at_unix < 256 ^ 8

abbrev pub unsigned : Execute → Execute
unsigned m = record m { sig = [] }

-- The canonical bytes determine every field but the signature.
pub canonical_bytes-injective :
    (m n : Execute)
    → IsWire m
    → IsWire n
    → canonical_bytes m ≡ canonical_bytes n
    → unsigned m ≡ unsigned n
unfolding canonical_bytes
canonical_bytes-injective m n hm hn e =
    let t = append-injective (as_bytes "PSL-EXECUTE-V1") (as_bytes "PSL-EXECUTE-V1") refl e in
    let f0 = append-injective m.proposal_hash n.proposal_hash (omega arith) t.1 in
    let f1 = push_bytes-injective m.witness n.witness hm.witness_len hn.witness_len f0.1 in
    let f2 =
      push_bytes-injective m.expected_output n.expected_output hm.expected_output_len
        hn.expected_output_len f1.1 in
    let f3 = append-injective m.by n.by (omega arith) f2.1 in
    let f4 =
      to_be_bytes-injective 8 m.executed_at_unix n.executed_at_unix hm.executed_at_unix_u64
        hn.executed_at_unix_u64 f3.1 in
    ground arith

-- A message that `sign` makes names the signer, and verifies.
pub verify-sign :
    {c : Crypto}
    → Laws c
    → (signer : Bytes) (proposal_hash : ProposalHash) (witness : Bytes) (expected_output : Bytes)
      (executed_at_unix : ℕ)
    → verify c (sign c signer proposal_hash witness expected_output executed_at_unix) ≡ ok tt
unfolding verify sign canonical_bytes
verify-sign l signer proposal_hash witness expected_output executed_at_unix =
    verify_sig-sign l signer _
