-- ===== src/Protocol/Log.antt =====
-- agent_protocol/src/state_machine.rs: the proposal log. A method with `&mut self` returns the new
-- log beside its result, since what it wrote stays written when it returns an error.
pub mod Update
pub mod Invariant
pub mod Lifecycle
pub mod Permanence
pub mod Method
pub mod Outcomes
pub mod Refusals
pub mod Sweep
use Prim.Native.String.{String}
use transformer_vm_bank.Base.{
  ℕ, Bool, true, false, not, Option, none, some, List, [], ◌∷◌, Result, ok, err, if◌then◌else◌, ltb,
}
use transformer_vm_bank.Bytes.{bytes_eq}
use transformer_vm_bank.Dict.{Dict, lookup, insert, remove, contains}
use transformer_vm_bank.Crypto.{Crypto}
use transformer_vm_bank.Protocol.Errors.{ProposalHash, ProtocolError}
use transformer_vm_bank.Protocol.Propose
use transformer_vm_bank.Protocol.Propose.{Propose}
use transformer_vm_bank.Protocol.Accept
use transformer_vm_bank.Protocol.Accept.{Accept}
use transformer_vm_bank.Protocol.Reject
use transformer_vm_bank.Protocol.Reject.{Reject}
use transformer_vm_bank.Protocol.CounterPropose
use transformer_vm_bank.Protocol.CounterPropose.{CounterPropose}
use transformer_vm_bank.Protocol.Execute
use transformer_vm_bank.Protocol.Execute.{Execute}

pub data ProposalState : Type 0 where
  proposed : Propose → ProposalState
  accepted : Propose → Accept → ProposalState
  rejected : Propose → Reject → ProposalState
  counter_proposed : Propose → CounterPropose → ProposalState
  executed : Propose → Accept → Execute → ProposalState
  expired : Propose → ℕ → ProposalState

unfoldable pub label : ProposalState → String
label (proposed p) = "Proposed"
label (accepted p a) = "Accepted"
label (rejected p r) = "Rejected"
label (counter_proposed p n) = "CounterProposed"
label (executed p a e) = "Executed"
label (expired p t) = "Expired"

unfoldable pub is_terminal : ProposalState → Bool
is_terminal (rejected p r) = true
is_terminal (executed p a e) = true
is_terminal (expired p t) = true
is_terminal _ = false

-- The field `by_hash` of `ProposalLog`.
abbrev pub ProposalLog : Type 0
ProposalLog = Dict ProposalState

-- What an arm of `match st` leaves under the hash, and what the method returns.
abbrev pub Arm : Type 0
Arm = ProposalState × Result ProtocolError (Unit {0})

abbrev pub illegal : ProposalState → String → Arm
illegal st event = (st, err (ProtocolError.illegal_transition (label st) event))

unfoldable pub on_accept : Accept → ProposalState → Arm
on_accept a (proposed p) =
    if not (bytes_eq a.by p.to)
    then (proposed p, err ProtocolError.signature_invalid)
    else if ltb p.valid_until_unix a.accepted_at_unix
    then (expired p a.accepted_at_unix, err (ProtocolError.expired 0 a.accepted_at_unix))
    else (accepted p a, ok tt)
on_accept a other = illegal other "accept"

unfoldable pub on_reject : Reject → ProposalState → Arm
on_reject r (proposed p) =
    if not (bytes_eq r.by p.to)
    then (proposed p, err ProtocolError.signature_invalid)
    else (rejected p r, ok tt)
on_reject r other = illegal other "reject"

unfoldable pub on_counter : CounterPropose → ProposalState → Arm
on_counter n (proposed p) =
    if not (bytes_eq n.by p.to)
    then (proposed p, err ProtocolError.signature_invalid)
    else (counter_proposed p n, ok tt)
on_counter n other = illegal other "counter"

-- An execution comes from the original proposer.
unfoldable pub on_execute : Execute → ProposalState → Arm
on_execute e (accepted p a) =
    if not (bytes_eq e.by p.from)
    then (accepted p a, err ProtocolError.signature_invalid)
    else (executed p a e, ok tt)
on_execute e other = illegal other "execute"

-- `remove(&h)`, the arm for the state that was there, and `insert(h, ..)`: every arm of every
-- method puts one state back under the hash.
unfoldable pub update_entry :
    ProposalHash
    → (ProposalState → Arm)
    → ProposalLog
    → ProposalLog × Result ProtocolError (Unit {0})
update_entry h arm log = elim (lookup h log) [
  | none ↦ (log, err (ProtocolError.unknown_proposal h))
  | some st ↦ (insert h (arm st).0 (remove h log), (arm st).1)
]

-- `x.verify()?`, and then the rest of the method.
unfoldable pub verified :
    Result ProtocolError (Unit {0})
    → ProposalLog
    → (ProposalLog → ProposalLog × Result ProtocolError (Unit {0}))
    → ProposalLog × Result ProtocolError (Unit {0})
verified (ok _) log rest = rest log
verified (err e) log rest = (log, err e)

-- One entry of the loop of `expire_due`.
unfoldable pub expire_state : ℕ → ProposalState → ProposalState × Bool
expire_state now (proposed p) =
    if ltb p.valid_until_unix now then (expired p now, true) else (proposed p, false)
expire_state now other = (other, false)

unfoldable pub expire_due : ℕ → ProposalLog → ProposalLog × List ProposalHash
expire_due now [] = ([], [])
expire_due now ((h, st) ∷ log) =
    let (log', flipped) = expire_due now log in
    let (st', flip) = expire_state now st in
    ((h, st') ∷ log', if flip then h ∷ flipped else flipped)

module _ (c : Crypto) where
  -- `entry(h).or_insert(..)`: a hash that is there keeps its state.
  unfoldable pub record_propose :
      Propose → ProposalLog → ProposalLog × Result ProtocolError ProposalHash
  record_propose p log = elim (Propose.verify c p) [
    | err e ↦ (log, err e)
    | ok _ ↦
        let h = Propose.proposal_hash c p in
        (if contains h log then log else insert h (proposed p) log, ok h)
  ]

  unfoldable pub apply_accept : Accept → ProposalLog → ProposalLog × Result ProtocolError (Unit {0})
  apply_accept a log = verified (Accept.verify c a) log (update_entry a.proposal_hash (on_accept a))

  unfoldable pub apply_reject : Reject → ProposalLog → ProposalLog × Result ProtocolError (Unit {0})
  apply_reject r log = verified (Reject.verify c r) log (update_entry r.proposal_hash (on_reject r))

  unfoldable pub apply_counter :
      CounterPropose → ProposalLog → ProposalLog × Result ProtocolError (Unit {0})
  apply_counter n log =
      verified (CounterPropose.verify c n) log
        (update_entry n.original_proposal_hash (on_counter n))

  unfoldable pub apply_execute :
      Execute → ProposalLog → ProposalLog × Result ProtocolError (Unit {0})
  apply_execute e log =
      verified (Execute.verify c e) log (update_entry e.proposal_hash (on_execute e))

-- What a log receives: the five messages, and the sweep at a time.
pub data Event : Type 0 where
  propose : Propose → Event
  accept : Accept → Event
  reject : Reject → Event
  counter : CounterPropose → Event
  execute : Execute → Event
  sweep : ℕ → Event

module _ (c : Crypto) where
  unfoldable pub handle : Event → ProposalLog → ProposalLog
  handle (propose p) log = (record_propose c p log).0
  handle (accept a) log = (apply_accept c a log).0
  handle (reject r) log = (apply_reject c r log).0
  handle (counter n) log = (apply_counter c n log).0
  handle (execute e) log = (apply_execute c e log).0
  handle (sweep now) log = (expire_due now log).0

  unfoldable pub run : List Event → ProposalLog → ProposalLog
  run [] log = log
  run (ev ∷ evs) log = run evs (handle ev log)
