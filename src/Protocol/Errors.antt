-- ===== src/Protocol/Errors.antt =====
-- agent_protocol/src/error.rs, and the helper of message.rs that checks a signature.
use Prim.Native.String.{String}
use transformer_vm_bank.Base.{ℕ, ◌≡◌, Result, ok, require, ◌>>◌}
use transformer_vm_bank.Bytes.{Bytes}
use transformer_vm_bank.Contracts.Errors.{ContractError}
use transformer_vm_bank.Crypto.{Crypto, Laws}

-- `ProposalHash`, a newtype of `[u8; 32]`.
abbrev pub ProposalHash : Type 0
ProposalHash = Bytes

-- `ProgramHash`, a newtype of `[u8; 64]`.
abbrev pub ProgramHash : Type 0
ProgramHash = Bytes

-- The text of an `ed25519` error is what the code puts before the library's own message.
pub data ProtocolError : Type 0 where
  signature_invalid : ProtocolError
  proposal_hash_mismatch : ProposalHash → ProposalHash → ProtocolError
  illegal_transition : String → String → ProtocolError
  unknown_proposal : ProposalHash → ProtocolError
  expired : ℕ → ℕ → ProtocolError
  dispute_output_mismatch : Bytes → Bytes → ProtocolError
  contract : ContractError → ProtocolError
  ed25519 : String → ProtocolError

-- `verify_sig(pk, body, sig)`
unfoldable pub verify_sig : Crypto → Bytes → Bytes → Bytes → Result ProtocolError (Unit {0})
verify_sig c pk body sig = do
  require (c.valid_key pk) (ed25519 "pk")
  require (c.check_signature pk body sig) signature_invalid

pub verify_sig-sign :
    {c : Crypto}
    → Laws c
    → (sk body : Bytes) → verify_sig c (c.verifying_key sk) body (c.sign_message sk body) ≡ ok tt
unfolding verify_sig
verify_sig-sign l sk body = rw (l.valid-verifying_key sk, l.check-sign sk body)
