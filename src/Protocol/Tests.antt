-- ===== src/Protocol/Tests.antt =====
-- Runs of the protocol on a small negotiation, and the examples of its theorems.
mod Disputes
use transformer_vm_bank.Base.{
  ◌≡◌, refl, ◌<◌, ◌++◌, true, some, List, [], ◌∷◌, ok, err, arith, replicate, if◌then◌else◌,
}
use transformer_vm_bank.Bytes.{Bytes, bytes_eq, as_bytes, push_bytes, to_be_bytes}
use transformer_vm_bank.Dict.{lookup, insert, remove}
use transformer_vm_bank.Crypto.Toy.{toy, toy-Laws}
use transformer_vm_bank.Protocol.Errors.{ProtocolError, verify_sig}
use transformer_vm_bank.Protocol.Propose
use transformer_vm_bank.Protocol.Propose.{Propose, proposal_hash}
use transformer_vm_bank.Protocol.Accept
use transformer_vm_bank.Protocol.Accept.{Accept}
use transformer_vm_bank.Protocol.Reject
use transformer_vm_bank.Protocol.Reject.{Reject}
use transformer_vm_bank.Protocol.CounterPropose
use transformer_vm_bank.Protocol.CounterPropose.{CounterPropose}
use transformer_vm_bank.Protocol.Execute
use transformer_vm_bank.Protocol.Execute.{Execute}
use transformer_vm_bank.Protocol.Log.{
  ProposalLog, proposed, accepted, rejected, counter_proposed, executed, expired, is_terminal,
  label, apply_accept, apply_reject, apply_counter, apply_execute, record_propose, expire_due,
  Event, propose, accept, execute, handle, run, update_entry, verified, on_accept, on_execute,
  on_reject, on_counter,
}
use transformer_vm_bank.Protocol.Log.Invariant.{IsValid, run-new-IsValid}
use transformer_vm_bank.Protocol.Log.Lifecycle.{Reach, run-Reach}
use transformer_vm_bank.Protocol.Log.Permanence.{run-is_terminal, executed_after_accepted}
use transformer_vm_bank.Protocol.Log.Outcomes.{
  CanAccept, CanReject, CanCounter, CanExecute, apply_accept-ok_iff, apply_reject-ok_iff,
  apply_counter-ok_iff, apply_execute-ok_iff,
}
use transformer_vm_bank.Protocol.Log.Refusals.{
  execution, apply_answer, apply_answer-err, apply_accept_late,
}
use transformer_vm_bank.Protocol.Log.Sweep.{Swept, reports, expire_due-Swept}

-- Alice offers Bob a contract, to be accepted by the time 10. A key is its own public key here.
abbrev pub alice : Bytes
alice = replicate 32 1

abbrev pub bob : Bytes
bob = replicate 32 2

abbrev pub program : Bytes
program = replicate 64 7

abbrev pub offer : Propose
offer = Propose.sign toy alice program (9 ∷ []) bob 5 10 1

abbrev pub offer_hash : Bytes
offer_hash = as_bytes "PSL-PROPOSE-V2" ++ replicate 18 7

abbrev pub acceptance : Accept
acceptance = Accept.sign toy bob offer_hash 7

abbrev pub refusal : Reject
refusal = Reject.sign toy bob offer_hash (as_bytes "no") 7

abbrev pub counter_offer : CounterPropose
counter_offer = CounterPropose.sign toy bob offer_hash (8 ∷ []) 2

abbrev pub done : Execute
done = Execute.sign toy alice offer_hash (4 ∷ []) (5 ∷ []) 8

abbrev history : List Event
history = propose offer ∷ accept acceptance ∷ execute done ∷ []

abbrev open_log : ProposalLog
open_log = (offer_hash, proposed offer) ∷ []

abbrev accepted_log : ProposalLog
accepted_log = (offer_hash, accepted offer acceptance) ∷ []

run-history : lookup offer_hash (run toy history []) ≡ some (executed offer acceptance done)
unfolding run handle record_propose apply_accept apply_reject apply_counter apply_execute verified
    update_entry on_accept on_reject on_counter on_execute insert remove lookup proposal_hash
    Propose.canonical_bytes Propose.sign Propose.verify Accept.verify Accept.sign
    Accept.canonical_bytes Reject.verify Reject.sign Reject.canonical_bytes CounterPropose.verify
    CounterPropose.sign CounterPropose.canonical_bytes Execute.verify Execute.sign
    Execute.canonical_bytes verify_sig bytes_eq to_be_bytes push_bytes
run-history = refl

run-new-IsValid_example : IsValid toy (run toy history [])
run-new-IsValid_example = run-new-IsValid toy history

run-Reach_example : Reach (lookup offer_hash []) (lookup offer_hash (run toy history []))
run-Reach_example = run-Reach toy history offer_hash []

apply_accept-ok : ((apply_accept toy acceptance open_log).1 ≡ ok tt)
unfolding run handle record_propose apply_accept apply_reject apply_counter apply_execute verified
    update_entry on_accept on_reject on_counter on_execute insert remove lookup proposal_hash
    Propose.canonical_bytes Propose.sign Propose.verify Accept.verify Accept.sign
    Accept.canonical_bytes Reject.verify Reject.sign Reject.canonical_bytes CounterPropose.verify
    CounterPropose.sign CounterPropose.canonical_bytes Execute.verify Execute.sign
    Execute.canonical_bytes verify_sig bytes_eq to_be_bytes push_bytes
apply_accept-ok = refl

apply_reject-ok : ((apply_reject toy refusal open_log).1 ≡ ok tt)
unfolding run handle record_propose apply_accept apply_reject apply_counter apply_execute verified
    update_entry on_accept on_reject on_counter on_execute insert remove lookup proposal_hash
    Propose.canonical_bytes Propose.sign Propose.verify Accept.verify Accept.sign
    Accept.canonical_bytes Reject.verify Reject.sign Reject.canonical_bytes CounterPropose.verify
    CounterPropose.sign CounterPropose.canonical_bytes Execute.verify Execute.sign
    Execute.canonical_bytes verify_sig bytes_eq to_be_bytes push_bytes
apply_reject-ok = refl

apply_counter-ok : ((apply_counter toy counter_offer open_log).1 ≡ ok tt)
unfolding run handle record_propose apply_accept apply_reject apply_counter apply_execute verified
    update_entry on_accept on_reject on_counter on_execute insert remove lookup proposal_hash
    Propose.canonical_bytes Propose.sign Propose.verify Accept.verify Accept.sign
    Accept.canonical_bytes Reject.verify Reject.sign Reject.canonical_bytes CounterPropose.verify
    CounterPropose.sign CounterPropose.canonical_bytes Execute.verify Execute.sign
    Execute.canonical_bytes verify_sig bytes_eq to_be_bytes push_bytes
apply_counter-ok = refl

apply_execute-ok : ((apply_execute toy done accepted_log).1 ≡ ok tt)
unfolding run handle record_propose apply_accept apply_reject apply_counter apply_execute verified
    update_entry on_accept on_reject on_counter on_execute insert remove lookup proposal_hash
    Propose.canonical_bytes Propose.sign Propose.verify Accept.verify Accept.sign
    Accept.canonical_bytes Reject.verify Reject.sign Reject.canonical_bytes CounterPropose.verify
    CounterPropose.sign CounterPropose.canonical_bytes Execute.verify Execute.sign
    Execute.canonical_bytes verify_sig bytes_eq to_be_bytes push_bytes
apply_execute-ok = refl

apply_execute-ok_iff_example :
    (p : Propose) × (q : Accept) × CanExecute toy done accepted_log p q
    × ((k : Bytes)
        → lookup k (apply_execute toy done accepted_log).0 ≡ (
            if bytes_eq done.proposal_hash k
            then some (executed p q done)
            else lookup k accepted_log))
apply_execute-ok_iff_example = (apply_execute-ok_iff toy done accepted_log).0 apply_execute-ok

-- An execution before the acceptance.
apply_execute-early :
    (apply_answer toy (execution done) open_log).1
    ≡ err (ProtocolError.illegal_transition "Proposed" "execute")
unfolding label run handle record_propose apply_accept apply_reject apply_counter apply_execute
    verified update_entry on_accept on_reject on_counter on_execute insert remove lookup
    proposal_hash Propose.canonical_bytes Propose.sign Propose.verify Accept.verify Accept.sign
    Accept.canonical_bytes Reject.verify Reject.sign Reject.canonical_bytes CounterPropose.verify
    CounterPropose.sign CounterPropose.canonical_bytes Execute.verify Execute.sign
    Execute.canonical_bytes verify_sig bytes_eq to_be_bytes push_bytes
apply_execute-early = refl

rejected_log :
    lookup offer_hash ((offer_hash, rejected offer refusal) ∷ []) ≡ some (rejected offer refusal)
unfolding lookup bytes_eq
rejected_log = refl

rejected-is_terminal : is_terminal (rejected offer refusal) ≡ true
unfolding is_terminal
rejected-is_terminal = refl

run-is_terminal_example :
    lookup offer_hash (run toy history ((offer_hash, rejected offer refusal) ∷ []))
    ≡ some (rejected offer refusal)
run-is_terminal_example =
    run-is_terminal toy history offer_hash ((offer_hash, rejected offer refusal) ∷ [])
      (rejected offer refusal) rejected_log rejected-is_terminal

expire_due-Swept_example :
    let log = run toy (propose offer ∷ []) [] in
    Swept 11
      (lookup offer_hash log)
      (lookup offer_hash (expire_due 11 log).0)
      (reports offer_hash (expire_due 11 log).1)
expire_due-Swept_example = expire_due-Swept toy (propose offer ∷ []) 11 offer_hash
