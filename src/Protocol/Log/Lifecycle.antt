-- ===== src/Protocol/Log/Lifecycle.antt =====
-- The lifecycle as a step relation on the state of one hash, and what no history can undo.
use transformer_vm_bank.Base.{
  ℕ, ◌≡◌, ◌<◌, ◌≤◌, Option, none, some, List, [], ◌∷◌, Result, ok, err, Bool-cases, Result-cases,
  inl, inr, ltb, ltb→lt, le_of_ltb,
}
use transformer_vm_bank.Bytes.{bytes_eq, bytes_eq_iff}
use transformer_vm_bank.Dict.{lookup}
use transformer_vm_bank.Crypto.{Crypto}
use transformer_vm_bank.Protocol.Errors.{ProposalHash, ProtocolError}
use transformer_vm_bank.Protocol.Propose
use transformer_vm_bank.Protocol.Propose.{Propose}
use transformer_vm_bank.Protocol.Accept
use transformer_vm_bank.Protocol.Accept.{Accept}
use transformer_vm_bank.Protocol.Reject
use transformer_vm_bank.Protocol.Reject.{Reject}
use transformer_vm_bank.Protocol.CounterPropose
use transformer_vm_bank.Protocol.CounterPropose.{CounterPropose}
use transformer_vm_bank.Protocol.Execute
use transformer_vm_bank.Protocol.Execute.{Execute}
use transformer_vm_bank.Protocol.Log.{
  ProposalState, ProposalLog, Arm, proposed, accepted, rejected, counter_proposed, executed,
  expired, on_accept, on_reject, on_counter, on_execute, update_entry, verified, expire_state,
  record_propose, apply_accept, apply_reject, apply_counter, apply_execute, Event, propose, accept,
  reject, counter, execute, sweep, handle, run,
}
use transformer_vm_bank.Protocol.Log.Update.{
  map_state, lookup-update_entry, lookup-expire_due, lookup-record_propose, get_or,
}

-- The arrows of the state diagram, and standing still.
pub data Step : Option ProposalState → Option ProposalState → Type 0 where
  stay : (o : Option ProposalState) → Step o o
  records : (p : Propose) → Step none (some (proposed p))
  accepts :
      (p : Propose) (a : Accept)
      → a.by ≡ p.to
      → a.accepted_at_unix ≤ p.valid_until_unix
      → Step (some (proposed p)) (some (accepted p a))
  rejects :
      (p : Propose) (r : Reject) → r.by ≡ p.to → Step (some (proposed p)) (some (rejected p r))
  counters :
      (p : Propose) (n : CounterPropose)
      → n.by ≡ p.to
      → Step (some (proposed p)) (some (counter_proposed p n))
  executes :
      (p : Propose) (a : Accept) (e : Execute)
      → e.by ≡ p.from
      → Step (some (accepted p a)) (some (executed p a e))
  expires :
      (p : Propose) (t : ℕ) → p.valid_until_unix < t → Step (some (proposed p)) (some (expired p t))

pub data Reach (o : Option ProposalState) : Option ProposalState → Type 0 where
  here : Reach o o
  next : {m n : Option ProposalState} → Reach o m → Step m n → Reach o n

abbrev Steps : (ProposalState → ProposalState) → Type 0
Steps f = (st : ProposalState) → Step (some st) (some (f st))

on_accept-Step : (a : Accept) → Steps (λ st. (on_accept a st).0)
unfolding on_accept
on_accept-Step a (proposed p) = elim (Bool-cases (bytes_eq a.by p.to)) [
  | inr other ↦ rw other (stay _)
  | inl same ↦ elim (Bool-cases (ltb p.valid_until_unix a.accepted_at_unix)) [
    | inl late ↦ rw (same, late) (expires p a.accepted_at_unix (ltb→lt _ _ late))
    | inr in_time ↦
        rw (same, in_time) (accepts p a ((bytes_eq_iff _ _).0 same) (le_of_ltb _ _ in_time))
  ]
]
on_accept-Step a _ = stay _

on_reject-Step : (r : Reject) → Steps (λ st. (on_reject r st).0)
unfolding on_reject
on_reject-Step r (proposed p) = elim (Bool-cases (bytes_eq r.by p.to)) [
  | inr other ↦ rw other (stay _)
  | inl same ↦ rw same (rejects p r ((bytes_eq_iff _ _).0 same))
]
on_reject-Step r _ = stay _

on_counter-Step : (n : CounterPropose) → Steps (λ st. (on_counter n st).0)
unfolding on_counter
on_counter-Step n (proposed p) = elim (Bool-cases (bytes_eq n.by p.to)) [
  | inr other ↦ rw other (stay _)
  | inl same ↦ rw same (counters p n ((bytes_eq_iff _ _).0 same))
]
on_counter-Step n _ = stay _

on_execute-Step : (e : Execute) → Steps (λ st. (on_execute e st).0)
unfolding on_execute
on_execute-Step e (accepted p a) = elim (Bool-cases (bytes_eq e.by p.from)) [
  | inr other ↦ rw other (stay _)
  | inl same ↦ rw same (executes p a e ((bytes_eq_iff _ _).0 same))
]
on_execute-Step e _ = stay _

expire_state-Step : (now : ℕ) → Steps (λ st. (expire_state now st).0)
unfolding expire_state
expire_state-Step now (proposed p) = elim (Bool-cases (ltb p.valid_until_unix now)) [
  | inl late ↦ rw late (expires p now (ltb→lt _ _ late))
  | inr early ↦ rw early (stay _)
]
expire_state-Step now _ = stay _

map_state-Step :
    (f : ProposalState → ProposalState)
    → Steps f
    → (o : Option ProposalState) → Step o (map_state f o)
map_state-Step f s none = stay none
map_state-Step f s (some st) = s st

update_entry-Step :
    (h k : ProposalHash) (arm : ProposalState → Arm) (log : ProposalLog)
    → Steps (λ st. (arm st).0)
    → Step (lookup k log) (lookup k (update_entry h arm log).0)
update_entry-Step h k arm log s = elim (Bool-cases (bytes_eq h k)) [
  | inl same ↦
      rw (lookup-update_entry h k arm log, same, (bytes_eq_iff h k).0 same)
        (map_state-Step (λ st. (arm st).0) s (lookup k log))
  | inr other ↦ rw (lookup-update_entry h k arm log, other) (stay _)
]

verified-Step :
    (r : Result ProtocolError (Unit {0})) (k : ProposalHash) (log : ProposalLog)
    (rest : ProposalLog → ProposalLog × Result ProtocolError (Unit {0}))
    → Step (lookup k log) (lookup k (rest log).0)
    → Step (lookup k log) (lookup k (verified r log rest).0)
unfolding verified
verified-Step (ok tt) k log rest s = s
verified-Step (err e) k log rest s = stay _

get_or-Step : (p : Propose) (o : Option ProposalState) → Step o (some (get_or (proposed p) o))
get_or-Step p none = records p
get_or-Step p (some st) = stay _

module _ (c : Crypto) where
  record_propose-Step :
      (p : Propose) (k : ProposalHash) (log : ProposalLog)
      → Step (lookup k log) (lookup k (record_propose c p log).0)
  unfolding record_propose
  record_propose-Step p k log = elim (Result-cases (Propose.verify c p)) [
    | inr (e, failed) ↦ rw (failed, record_propose) (stay _)
    | inl (tt, signed) ↦ elim (Bool-cases (bytes_eq (Propose.proposal_hash c p) k)) [
      | inl same ↦ rw (lookup-record_propose c p k log signed, same) (get_or-Step p (lookup k log))
      | inr other ↦ rw (lookup-record_propose c p k log signed, other) (stay _)
    ]
  ]

  -- Whatever arrives, each hash makes one step of the state diagram or stands still.
  pub handle-Step :
      (ev : Event) (k : ProposalHash) (log : ProposalLog)
      → Step (lookup k log) (lookup k (handle c ev log))
  unfolding handle apply_accept apply_reject apply_counter apply_execute
  handle-Step (propose p) k log = record_propose-Step p k log
  handle-Step (accept a) k log =
      verified-Step (Accept.verify c a) k log _
        (update_entry-Step a.proposal_hash k (on_accept a) log (on_accept-Step a))
  handle-Step (reject r) k log =
      verified-Step (Reject.verify c r) k log _
        (update_entry-Step r.proposal_hash k (on_reject r) log (on_reject-Step r))
  handle-Step (counter n) k log =
      verified-Step (CounterPropose.verify c n) k log _
        (update_entry-Step n.original_proposal_hash k (on_counter n) log (on_counter-Step n))
  handle-Step (execute e) k log =
      verified-Step (Execute.verify c e) k log _
        (update_entry-Step e.proposal_hash k (on_execute e) log (on_execute-Step e))
  handle-Step (sweep now) k log =
      rw (lookup-expire_due now k log)
        (map_state-Step (λ st. (expire_state now st).0) (expire_state-Step now) (lookup k log))

Reach-trans : {o m n : Option ProposalState} → Reach o m → Reach m n → Reach o n
Reach-trans r here = r
Reach-trans r (next s st) = next (Reach-trans r s) st

module _ (c : Crypto) where
  -- So every history of messages and sweeps moves each hash along the diagram.
  pub run-Reach :
      (evs : List Event) (k : ProposalHash) (log : ProposalLog)
      → Reach (lookup k log) (lookup k (run c evs log))
  unfolding run
  run-Reach [] k log = here
  run-Reach (ev ∷ evs) k log =
      Reach-trans (next here (handle-Step c ev k log)) (run-Reach evs k (handle c ev log))
