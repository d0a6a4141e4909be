-- ===== src/Contracts/Tests/Disputes.antt =====
-- A dispute over a transfer, and the example of its theorem.
use transformer_vm_bank.Base.{◌≡◌, refl, [], ◌∷◌, ok, replicate, length, if◌then◌else◌}
use transformer_vm_bank.Bytes.{Bytes, AreBytes, bytes_eq}
use transformer_vm_bank.Contracts.Disputes.{settled, transfer_dispute-verdict}
use transformer_vm_bank.Contracts.Transfer
use transformer_vm_bank.Crypto.Toy.{toy, toy-Laws}
use transformer_vm_bank.Protocol.Propose
use transformer_vm_bank.Protocol.Propose.{Propose}
use transformer_vm_bank.Protocol.Execute
use transformer_vm_bank.Protocol.Execute.{Execute}
use transformer_vm_bank.Protocol.Dispute
use transformer_vm_bank.Protocol.Dispute.{Dispute, slash_executor, dismiss_dispute, resolve_dispute}
use transformer_vm_bank.Contracts.Tests.{
  transfer_input, transfer_contract, transfer_built, transfer_input-AreBytes, transfer_input-length,
}

-- Alice executed the transfer and claims the output 5; Bob disputes it.
abbrev alice : Bytes
alice = replicate 32 1

abbrev bob : Bytes
bob = replicate 32 2

abbrev offer_hash : Bytes
offer_hash = replicate 32 7

abbrev offer : Propose
offer = Propose.sign toy alice (replicate 64 7) (9 ∷ []) bob 5 10 1

abbrev cheat : Execute
cheat = Execute.sign toy alice offer_hash transfer_input (5 ∷ []) 8

abbrev challenge : Dispute
challenge = Dispute.sign toy bob offer_hash transfer_input (6 ∷ []) 9

challenge-witness : challenge.witness ≡ transfer_input
unfolding Dispute.sign
challenge-witness = refl

challenge-AreBytes : AreBytes challenge.witness
challenge-AreBytes = rw challenge-witness transfer_input-AreBytes

challenge-length : length challenge.witness ≡ 56
challenge-length = rw challenge-witness transfer_input-length

same_proposal : challenge.proposal_hash ≡ cheat.proposal_hash
unfolding Dispute.sign Execute.sign
same_proposal = refl

transfer_dispute-verdict_example :
    resolve_dispute toy (Transfer.run transfer_contract) offer cheat challenge
    ≡ ok (
        if bytes_eq cheat.expected_output (settled challenge.witness)
        then dismiss_dispute challenge.disputer (settled challenge.witness)
        else slash_executor cheat.by (settled challenge.witness))
transfer_dispute-verdict_example =
    transfer_dispute-verdict toy transfer_contract offer cheat challenge transfer_built
      challenge-AreBytes challenge-length
      (Propose.verify-sign toy-Laws alice (replicate 64 7) (9 ∷ []) bob 5 10 1)
      (Execute.verify-sign toy-Laws alice offer_hash transfer_input (5 ∷ []) 8)
      (Dispute.verify-sign toy-Laws bob offer_hash transfer_input (6 ∷ []) 9) same_proposal
