-- ===== src/Contracts/Disputes.antt =====
-- A dispute over a transfer: resolve_dispute of agent_protocol/src/dispute.rs with the transfer
-- contract of agent_contracts/src/transfer.rs as the program that it runs again.
use transformer_vm_bank.Base.{◌≡◌, ok, length, if◌then◌else◌}
use transformer_vm_bank.Bytes.{Bytes, AreBytes, bytes_eq}
use transformer_vm_bank.Contracts.Agreement.{number_at}
use transformer_vm_bank.Contracts.Built.{transfer-run}
use transformer_vm_bank.Contracts.Guarded.Correct.{ledger_transfer}
use transformer_vm_bank.Contracts.Standard.{StandardContract}
use transformer_vm_bank.Contracts.Transfer
use transformer_vm_bank.Crypto.{Crypto}
use transformer_vm_bank.Protocol.Propose
use transformer_vm_bank.Protocol.Propose.{Propose}
use transformer_vm_bank.Protocol.Execute
use transformer_vm_bank.Protocol.Execute.{Execute}
use transformer_vm_bank.Protocol.Dispute
use transformer_vm_bank.Protocol.Dispute.{Dispute, slash_executor, dismiss_dispute, resolve_dispute}
use transformer_vm_bank.Protocol.Dispute.Resolution.{resolve_dispute-Reruns}

-- The output that a ledger writes for the transfer of the witness of a dispute.
abbrev pub settled : Bytes → Bytes
settled w =
    ledger_transfer (number_at 0 16 w) (number_at 16 16 w) (number_at 32 16 w) (number_at 48 8 w)

-- A dispute with a witness of 56 bytes, over an execution of the same proposal, the three messages
-- signed, is decided by the arithmetic of the ledger when the program is the transfer contract that
-- `build` returns: it is dismissed if the execution claims the transfer of the witness on numbers,
-- and the signer of the execution is slashed if it claims anything else. The output that the dispute
-- claims does not count.
pub transfer_dispute-verdict :
    (c : Crypto) (contract : StandardContract) (p : Propose) (x : Execute) (d : Dispute)
    → Transfer.build c ≡ ok contract
    → AreBytes d.witness
    → length d.witness ≡ 56
    → Propose.verify c p ≡ ok tt
    → Execute.verify c x ≡ ok tt
    → Dispute.verify c d ≡ ok tt
    → d.proposal_hash ≡ x.proposal_hash
    → resolve_dispute c (Transfer.run contract) p x d
      ≡ ok (
          if bytes_eq x.expected_output (settled d.witness)
          then dismiss_dispute d.disputer (settled d.witness)
          else slash_executor x.by (settled d.witness))
transfer_dispute-verdict c contract p x d built bytes len signed executed disputed same =
    resolve_dispute-Reruns c (Transfer.run contract) p x d (record {
      propose_signed = signed;
      execute_signed = executed;
      dispute_signed = disputed;
      same_proposal = same;
      reruns = transfer-run c contract d.witness bytes built len;
    })
