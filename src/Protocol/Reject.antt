-- ===== src/Protocol/Reject.antt =====
-- `Reject` of agent_protocol/src/message.rs. A `String` is given by its UTF-8 bytes.
use transformer_vm_bank.Base.{
  ℕ, ◌≡◌, refl, ◌++◌, ◌^◌, ◌<◌, [], arith, length, append-injective, replicate, Result, ok,
}
use transformer_vm_bank.Bytes.{Bytes, as_bytes, to_be_bytes, push_bytes}
use transformer_vm_bank.Bytes.Encode.{push_bytes-injective, to_be_bytes-injective}
use transformer_vm_bank.Crypto.{Crypto, Laws}
use transformer_vm_bank.Protocol.Errors.{ProposalHash, ProtocolError, verify_sig, verify_sig-sign}

pub record Reject : Type 0 where
  pub proposal_hash : ProposalHash
  pub by : Bytes
  pub reason : Bytes
  pub rejected_at_unix : ℕ
  pub sig : Bytes

unfoldable pub canonical_bytes : Reject → Bytes
canonical_bytes m =
    as_bytes "PSL-REJECT-V1"
    ++ (m.proposal_hash ++ (m.by ++ (push_bytes m.reason ++ to_be_bytes 8 m.rejected_at_unix)))

module _ (c : Crypto) where
  unfoldable pub sign : Bytes → ProposalHash → Bytes → ℕ → Reject
  sign signer proposal_hash reason rejected_at_unix =
      let m : Reject = record {
        proposal_hash = proposal_hash;
        by = c.verifying_key signer;
        reason = reason;
        rejected_at_unix = rejected_at_unix;
        sig = replicate 64 0;
      } in
      record m { sig = c.sign_message signer (canonical_bytes m) }

  unfoldable pub verify : Reject → Result ProtocolError (Unit {0})
  verify m = verify_sig c m.by (canonical_bytes m) m.sig

-- What the Rust types give: the widths of the arrays and integers, and lengths that fit a u32.
pub record IsWire (m : Reject) : Type 0 where
  pub proposal_hash_len : length m.proposal_hash ≡ 32
  pub by_len : length m.by ≡ 32
  pub reason_len : length m.reason < 2 ^ 32
  pub rejected_at_unix_u64 : m.rejected_at_unix < 256 ^ 8

abbrev pub unsigned : Reject → Reject
unsigned m = record m { sig = [] }

-- The canonical bytes determine every field but the signature.
pub canonical_bytes-injective :
    (m n : Reject)
    → IsWire m
    → IsWire n
    → canonical_bytes m ≡ canonical_bytes n
    → unsigned m ≡ unsigned n
unfolding canonical_bytes
canonical_bytes-injective m n hm hn e =
    let t = append-injective (as_bytes "PSL-REJECT-V1") (as_bytes "PSL-REJECT-V1") refl e in
    let f0 = append-injective m.proposal_hash n.proposal_hash (omega arith) t.1 in
    let f1 = append-injective m.by n.by (omega arith) f0.1 in
    let f2 = push_bytes-injective m.reason n.reason hm.reason_len hn.reason_len f1.1 in
    let f3 =
      to_be_bytes-injective 8 m.rejected_at_unix n.rejected_at_unix hm.rejected_at_unix_u64
        hn.rejected_at_unix_u64 f2.1 in
    ground arith

-- A message that `sign` makes names the signer, and verifies.
pub verify-sign :
    {c : Crypto}
    → Laws c
    → (signer : Bytes) (proposal_hash : ProposalHash) (reason : Bytes) (rejected_at_unix : ℕ)
    → verify c (sign c signer proposal_hash reason rejected_at_unix) ≡ ok tt
unfolding verify sign canonical_bytes
verify-sign l signer proposal_hash reason rejected_at_unix = verify_sig-sign l signer _
