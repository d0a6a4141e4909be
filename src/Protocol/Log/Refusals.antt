-- ===== src/Protocol/Log/Refusals.antt =====
-- What a refused message leaves.
use transformer_vm_bank.Base.{◌≡◌, refl, ◌<◌, some, Result, ok, err, arith, if◌then◌else◌}
use transformer_vm_bank.Bytes.{bytes_eq, bytes_eq_iff}
use transformer_vm_bank.Dict.{lookup}
use transformer_vm_bank.Crypto.{Crypto}
use transformer_vm_bank.Protocol.Errors.{ProposalHash, ProtocolError}
use transformer_vm_bank.Protocol.Propose.{Propose}
use transformer_vm_bank.Protocol.Accept
use transformer_vm_bank.Protocol.Accept.{Accept}
use transformer_vm_bank.Protocol.Reject
use transformer_vm_bank.Protocol.Reject.{Reject}
use transformer_vm_bank.Protocol.CounterPropose
use transformer_vm_bank.Protocol.CounterPropose.{CounterPropose}
use transformer_vm_bank.Protocol.Execute
use transformer_vm_bank.Protocol.Execute.{Execute}
use transformer_vm_bank.Protocol.Log.{
  ProposalLog, proposed, accepted, expired, on_accept, on_reject, on_counter, on_execute,
  apply_accept, apply_reject, apply_counter, apply_execute, verified,
}
use transformer_vm_bank.Protocol.Log.Update.{lookup-update_entry}
use transformer_vm_bank.Protocol.Log.Method.{Careful, method-err, update_entry-result}

on_reject-Careful : (r : Reject) → Careful (on_reject r)
unfolding on_reject
on_reject-Careful r (proposed p) e h = ground arith
on_reject-Careful r _ e h = refl

on_counter-Careful : (n : CounterPropose) → Careful (on_counter n)
unfolding on_counter
on_counter-Careful n (proposed p) e h = ground arith
on_counter-Careful n _ e h = refl

on_execute-Careful : (x : Execute) → Careful (on_execute x)
unfolding on_execute
on_execute-Careful x (accepted p a) e h = ground arith
on_execute-Careful x _ e h = refl

-- A message other than a proposal, as the log is given it.
pub data Answer : Type 0 where
  rejection : Reject → Answer
  counter_proposal : CounterPropose → Answer
  execution : Execute → Answer

module _ (c : Crypto) where
  abbrev pub apply_answer : Answer → ProposalLog → ProposalLog × Result ProtocolError (Unit {0})
  apply_answer (rejection r) log = apply_reject c r log
  apply_answer (counter_proposal n) log = apply_counter c n log
  apply_answer (execution x) log = apply_execute c x log

  -- A rejection, a counter-proposal or an execution that is refused, for whatever reason, leaves
  -- every hash as it was.
  pub apply_answer-err :
      (m : Answer) (log : ProposalLog) (e : ProtocolError)
      → (apply_answer m log).1 ≡ err e
      → (k : ProposalHash) → lookup k (apply_answer m log).0 ≡ lookup k log
  unfolding apply_reject apply_counter apply_execute
  apply_answer-err (rejection r) log e h =
      method-err (Reject.verify c r) r.proposal_hash (on_reject r) log e (on_reject-Careful r) h
  apply_answer-err (counter_proposal n) log e h =
      method-err (CounterPropose.verify c n) n.original_proposal_hash (on_counter n) log e
        (on_counter-Careful n) h
  apply_answer-err (execution x) log e h =
      method-err (Execute.verify c x) x.proposal_hash (on_execute x) log e (on_execute-Careful x) h

  late :
      (a : Accept) (p : Propose)
      → p.valid_until_unix < a.accepted_at_unix
      → a.by ≡ p.to
      → on_accept a (proposed p)
        ≡ (expired p a.accepted_at_unix, err (ProtocolError.expired 0 a.accepted_at_unix))
  unfolding on_accept
  late a p h to = ground (arith, bytes_eq_iff a.by p.to)

  -- A signed acceptance by the addressee that comes too late is refused, with 0 in place of the
  -- expiry in the error, and turns the standing proposal into `Expired`; no other hash changes.
  pub apply_accept_late :
      (a : Accept) (log : ProposalLog) (p : Propose)
      → Accept.verify c a ≡ ok tt
      → lookup a.proposal_hash log ≡ some (proposed p)
      → a.by ≡ p.to
      → p.valid_until_unix < a.accepted_at_unix
      → ((apply_accept c a log).1 ≡ err (ProtocolError.expired 0 a.accepted_at_unix))
        × ((k : ProposalHash)
            → lookup k (apply_accept c a log).0 ≡ (
                if bytes_eq a.proposal_hash k
                then some (expired p a.accepted_at_unix)
                else lookup k log))
  unfolding apply_accept verified
  apply_accept_late a log p signed standing to over = (
    ground (arith, late a p over to, update_entry-result a.proposal_hash (on_accept a) log),
    λ k. ground (arith, late a p over to, lookup-update_entry a.proposal_hash k (on_accept a) log),
  )
