-- ===== src/Protocol/CounterPropose.antt =====
-- `CounterPropose` of agent_protocol/src/message.rs.
use transformer_vm_bank.Base.{
  ℕ, ◌≡◌, refl, ◌++◌, ◌^◌, ◌<◌, [], arith, length, append-injective, replicate, Result, ok,
}
use transformer_vm_bank.Bytes.{Bytes, as_bytes, to_be_bytes, push_bytes}
use transformer_vm_bank.Bytes.Encode.{push_bytes-injective, to_be_bytes-injective}
use transformer_vm_bank.Crypto.{Crypto, Laws}
use transformer_vm_bank.Protocol.Errors.{ProposalHash, ProtocolError, verify_sig, verify_sig-sign}

pub record CounterPropose : Type 0 where
  pub original_proposal_hash : ProposalHash
  pub new_parameters : Bytes
  pub by : Bytes
  pub nonce : ℕ
  pub sig : Bytes

unfoldable pub canonical_bytes : CounterPropose → Bytes
canonical_bytes m =
    as_bytes "PSL-COUNTER-V1"
    ++ (m.original_proposal_hash
        ++ (push_bytes m.new_parameters ++ (m.by ++ to_be_bytes 8 m.nonce)))

module _ (c : Crypto) where
  unfoldable pub sign : Bytes → ProposalHash → Bytes → ℕ → CounterPropose
  sign signer original_proposal_hash new_parameters nonce =
      let m : CounterPropose = record {
        original_proposal_hash = original_proposal_hash;
        new_parameters = new_parameters;
        by = c.verifying_key signer;
        nonce = nonce;
        sig = replicate 64 0;
      } in
      record m { sig = c.sign_message signer (canonical_bytes m) }

  unfoldable pub verify : CounterPropose → Result ProtocolError (Unit {0})
  verify m = verify_sig c m.by (canonical_bytes m) m.sig

-- What the Rust types give: the widths of the arrays and integers, and lengths that fit a u32.
pub record IsWire (m : CounterPropose) : Type 0 where
  pub original_proposal_hash_len : length m.original_proposal_hash ≡ 32
  pub new_parameters_len : length m.new_parameters < 2 ^ 32
  pub by_len : length m.by ≡ 32
  pub nonce_u64 : m.nonce < 256 ^ 8

abbrev pub unsigned : CounterPropose → CounterPropose
unsigned m = record m { sig = [] }

-- The canonical bytes determine every field but the signature.
pub canonical_bytes-injective :
    (m n : CounterPropose)
    → IsWire m
    → IsWire n
    → canonical_bytes m ≡ canonical_bytes n
    → unsigned m ≡ unsigned n
unfolding canonical_bytes
canonical_bytes-injective m n hm hn e =
    let t = append-injective (as_bytes "PSL-COUNTER-V1") (as_bytes "PSL-COUNTER-V1") refl e in
    let f0 = append-injective m.original_proposal_hash n.original_proposal_hash (omega arith) t.1 in
    let f1 =
      push_bytes-injective m.new_parameters n.new_parameters hm.new_parameters_len
        hn.new_parameters_len f0.1 in
    let f2 = append-injective m.by n.by (omega arith) f1.1 in
    let f3 = to_be_bytes-injective 8 m.nonce n.nonce hm.nonce_u64 hn.nonce_u64 f2.1 in ground arith

-- A message that `sign` makes names the signer, and verifies.
pub verify-sign :
    {c : Crypto}
    → Laws c
    → (signer : Bytes) (original_proposal_hash : ProposalHash) (new_parameters : Bytes) (nonce : ℕ)
    → verify c (sign c signer original_proposal_hash new_parameters nonce) ≡ ok tt
unfolding verify sign canonical_bytes
verify-sign l signer original_proposal_hash new_parameters nonce = verify_sig-sign l signer _
