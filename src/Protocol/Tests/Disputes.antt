-- ===== src/Protocol/Tests/Disputes.antt =====
-- Encodings and a dispute over the small negotiation.
use transformer_vm_bank.Base.{◌≡◌, refl, sym, ◌≢◌, ◌↔◌, [], ◌∷◌, Result, ok, arith}
use transformer_vm_bank.Bytes.{Bytes}
use transformer_vm_bank.Crypto.Toy.{toy, toy-Laws}
use transformer_vm_bank.Contracts.Errors.{ContractError}
use transformer_vm_bank.Protocol.Propose
use transformer_vm_bank.Protocol.Propose.{Propose, proposal_hash-injective, unsigned, IsWire}
use transformer_vm_bank.Protocol.Accept
use transformer_vm_bank.Protocol.Accept.{Accept}
use transformer_vm_bank.Protocol.Execute
use transformer_vm_bank.Protocol.Execute.{Execute}
use transformer_vm_bank.Protocol.Dispute
use transformer_vm_bank.Protocol.Dispute.{Dispute, slash_executor, resolve_dispute}
use transformer_vm_bank.Protocol.Dispute.Resolution.{
  Reruns, slash_executor_iff, resolve_dispute-documented_iff, documented,
}
use transformer_vm_bank.Protocol.Tags.{signed_kinds_apart}
use transformer_vm_bank.Protocol.Tests.{
  alice, bob, program, offer, offer_hash, acceptance, refusal, counter_offer, done,
}

-- Disputes over a contract that echoes its witness. Alice executed it on 5 and claimed 5.
abbrev echo : Bytes → Result ContractError Bytes
echo w = ok w

abbrev honest : Execute
honest = Execute.sign toy alice offer_hash (5 ∷ []) (5 ∷ []) 8

abbrev same_witness : Dispute
same_witness = Dispute.sign toy bob offer_hash (5 ∷ []) (6 ∷ []) 9

abbrev other_witness : Dispute
other_witness = Dispute.sign toy bob offer_hash (6 ∷ []) (6 ∷ []) 9

other_witness-Reruns : Reruns toy echo offer honest other_witness (6 ∷ [])
unfolding Execute.sign Dispute.sign
other_witness-Reruns = record {
  propose_signed = Propose.verify-sign toy-Laws alice program (9 ∷ []) bob 5 10 1;
  execute_signed = Execute.verify-sign toy-Laws alice offer_hash (5 ∷ []) (5 ∷ []) 8;
  dispute_signed = Dispute.verify-sign toy-Laws bob offer_hash (6 ∷ []) (6 ∷ []) 9;
  same_proposal = refl;
  reruns = refl;
}

other_output : (6 ∷ []) ≢ honest.expected_output
unfolding Execute.sign
other_output = λ e. ground arith

slash_executor_iff_example :
    resolve_dispute toy echo offer honest other_witness ≡ ok (slash_executor honest.by (6 ∷ []))
slash_executor_iff_example =
    (slash_executor_iff toy echo offer honest other_witness honest.by (6 ∷ [])).1
      (other_witness-Reruns, λ e. other_output (sym e), refl)

resolve_dispute-documented_iff_example :
    (resolve_dispute toy echo offer honest other_witness
      ≡ ok (documented toy echo honest other_witness (6 ∷ [])))
    ↔ ((other_witness.claimed_output ≡ 6 ∷ []) ↔ (honest.expected_output ≢ 6 ∷ []))
resolve_dispute-documented_iff_example =
    resolve_dispute-documented_iff toy echo offer honest other_witness other_witness-Reruns

signed_kinds_apart_example : Propose.canonical_bytes offer ≢ Accept.canonical_bytes acceptance
signed_kinds_apart_example =
    (signed_kinds_apart offer acceptance refusal counter_offer done same_witness).0
