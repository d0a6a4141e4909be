-- ===== src/Protocol/Propose.antt =====
-- `Propose` of agent_protocol/src/message.rs.
use transformer_vm_bank.Base.{
  ℕ, ◌≡◌, refl, ◌++◌, ◌^◌, ◌<◌, ◌⊎◌, inl, inr, [], arith, length, append-injective, replicate,
  Result, ok,
}
use transformer_vm_bank.Bytes.{Bytes, as_bytes, to_be_bytes, push_bytes}
use transformer_vm_bank.Bytes.Encode.{push_bytes-injective, u64_field, to_be_bytes-injective}
use transformer_vm_bank.Crypto.{Crypto, Laws, Collision, blake3-injective}
use transformer_vm_bank.Protocol.Errors.{
  ProposalHash, ProgramHash, ProtocolError, verify_sig, verify_sig-sign,
}

pub record Propose : Type 0 where
  pub program_hash : ProgramHash
  pub parameters : Bytes
  pub from : Bytes
  pub to : Bytes
  pub valid_from_unix : ℕ
  pub valid_until_unix : ℕ
  pub nonce : ℕ
  pub sig : Bytes

unfoldable pub canonical_bytes : Propose → Bytes
canonical_bytes p =
    as_bytes "PSL-PROPOSE-V2"
    ++ (p.program_hash
        ++ (push_bytes p.parameters
            ++ (p.from
                ++ (p.to
                    ++ (to_be_bytes 8 p.valid_from_unix
                        ++ (to_be_bytes 8 p.valid_until_unix ++ to_be_bytes 8 p.nonce))))))

module _ (c : Crypto) where
  unfoldable pub proposal_hash : Propose → ProposalHash
  proposal_hash p = c.blake3 (canonical_bytes p)

  unfoldable pub sign : Bytes → ProgramHash → Bytes → Bytes → ℕ → ℕ → ℕ → Propose
  sign signer program_hash parameters to valid_from_unix valid_until_unix nonce =
      let p : Propose = record {
        program_hash = program_hash;
        parameters = parameters;
        from = c.verifying_key signer;
        to = to;
        valid_from_unix = valid_from_unix;
        valid_until_unix = valid_until_unix;
        nonce = nonce;
        sig = replicate 64 0;
      } in
      record p { sig = c.sign_message signer (canonical_bytes p) }

  unfoldable pub verify : Propose → Result ProtocolError (Unit {0})
  verify p = verify_sig c p.from (canonical_bytes p) p.sig

-- What the Rust types give: the widths of the arrays and integers, and a length that fits a u32.
pub record IsWire (p : Propose) : Type 0 where
  pub program_hash_len : length p.program_hash ≡ 64
  pub parameters_len : length p.parameters < 2 ^ 32
  pub from_len : length p.from ≡ 32
  pub to_len : length p.to ≡ 32
  pub valid_from_u64 : p.valid_from_unix < 256 ^ 8
  pub valid_until_u64 : p.valid_until_unix < 256 ^ 8
  pub nonce_u64 : p.nonce < 256 ^ 8

-- The message without its signature: what the canonical bytes stand for.
abbrev pub unsigned : Propose → Propose
unsigned p = record p { sig = [] }

-- The canonical bytes determine every field but the signature.
pub canonical_bytes-injective :
    (p q : Propose)
    → IsWire p
    → IsWire q
    → canonical_bytes p ≡ canonical_bytes q
    → unsigned p ≡ unsigned q
unfolding canonical_bytes
canonical_bytes-injective p q hp hq e =
    let t = append-injective (as_bytes "PSL-PROPOSE-V2") (as_bytes "PSL-PROPOSE-V2") refl e in
    let program = append-injective p.program_hash q.program_hash (omega arith) t.1 in
    let params =
      push_bytes-injective p.parameters q.parameters (omega arith) (omega arith) program.1 in
    let sender = append-injective p.from q.from (omega arith) params.1 in
    let receiver = append-injective p.to q.to (omega arith) sender.1 in
    let start =
      u64_field p.valid_from_unix q.valid_from_unix hp.valid_from_u64 hq.valid_from_u64
        receiver.1 in
    let end =
      u64_field p.valid_until_unix q.valid_until_unix hp.valid_until_u64 hq.valid_until_u64
        start.1 in
    let count = to_be_bytes-injective 8 p.nonce q.nonce hp.nonce_u64 hq.nonce_u64 end.1 in
    ground arith

-- A proposal hash identifies the unsigned proposal, unless it shows a BLAKE3 collision.
pub proposal_hash-injective :
    (c : Crypto) (p q : Propose)
    → IsWire p
    → IsWire q
    → proposal_hash c p ≡ proposal_hash c q
    → (unsigned p ≡ unsigned q) ⊎ Collision c
unfolding proposal_hash
proposal_hash-injective c p q hp hq e =
    elim (blake3-injective c (canonical_bytes p) (canonical_bytes q) e) [
      | inl same ↦ inl (canonical_bytes-injective p q hp hq same)
      | inr clash ↦ inr clash
    ]

-- A signed proposal carries the signer's key as its sender, and verifies.
pub verify-sign :
    {c : Crypto}
    → Laws c
    → (signer : Bytes) (program_hash : ProgramHash) (parameters to : Bytes) (start end nonce : ℕ)
    → verify c (sign c signer program_hash parameters to start end nonce) ≡ ok tt
unfolding verify sign canonical_bytes
verify-sign l signer program_hash parameters to start end nonce = verify_sig-sign l signer _
