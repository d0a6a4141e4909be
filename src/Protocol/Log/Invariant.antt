-- ===== src/Protocol/Log/Invariant.antt =====
-- The invariant of the log: what stands under a hash is signed evidence for that hash.
use transformer_vm_bank.Base.{
  ℕ, ◌≡◌, refl, ◌<◌, ◌≤◌, Option, none, some, List, [], ◌∷◌, Result, ok, err, arith, Bool-cases,
  Result-cases, inl, inr,
}
use transformer_vm_bank.Bytes.{bytes_eq, bytes_eq_iff}
use transformer_vm_bank.Dict.{lookup}
use transformer_vm_bank.Crypto.{Crypto}
use transformer_vm_bank.Protocol.Errors.{ProposalHash, ProtocolError}
use transformer_vm_bank.Protocol.Propose
use transformer_vm_bank.Protocol.Propose.{Propose}
use transformer_vm_bank.Protocol.Accept
use transformer_vm_bank.Protocol.Accept.{Accept}
use transformer_vm_bank.Protocol.Reject
use transformer_vm_bank.Protocol.Reject.{Reject}
use transformer_vm_bank.Protocol.CounterPropose
use transformer_vm_bank.Protocol.CounterPropose.{CounterPropose}
use transformer_vm_bank.Protocol.Execute
use transformer_vm_bank.Protocol.Execute.{Execute}
use transformer_vm_bank.Protocol.Log.{
  ProposalState, ProposalLog, Arm, proposed, accepted, rejected, counter_proposed, executed,
  expired, on_accept, on_reject, on_counter, on_execute, update_entry, verified, expire_state,
  expire_due, record_propose, apply_accept, apply_reject, apply_counter, apply_execute, Event,
  propose, accept, reject, counter, execute, sweep, handle, run,
}
use transformer_vm_bank.Protocol.Log.Update.{
  map_state, lookup-update_entry, lookup-expire_due, lookup-record_propose, get_or,
}

module _ (c : Crypto) where
  -- The proposal hashes to `h` and carries its sender's signature.
  pub record IsProposal (h : ProposalHash) (p : Propose) : Type 0 where
    pub hashes : Propose.proposal_hash c p ≡ h
    pub signed : Propose.verify c p ≡ ok tt

  -- Signed by the agent to whom the proposal went, in time.
  pub record IsAcceptance (h : ProposalHash) (p : Propose) (a : Accept) : Type 0 where
    pub refers : a.proposal_hash ≡ h
    pub signed : Accept.verify c a ≡ ok tt
    pub addressee : a.by ≡ p.to
    pub in_time : a.accepted_at_unix ≤ p.valid_until_unix

  pub record IsRejection (h : ProposalHash) (p : Propose) (r : Reject) : Type 0 where
    pub refers : r.proposal_hash ≡ h
    pub signed : Reject.verify c r ≡ ok tt
    pub addressee : r.by ≡ p.to

  pub record IsCounter (h : ProposalHash) (p : Propose) (n : CounterPropose) : Type 0 where
    pub refers : n.original_proposal_hash ≡ h
    pub signed : CounterPropose.verify c n ≡ ok tt
    pub addressee : n.by ≡ p.to

  -- Signed by the proposer.
  pub record IsExecution (h : ProposalHash) (p : Propose) (e : Execute) : Type 0 where
    pub refers : e.proposal_hash ≡ h
    pub signed : Execute.verify c e ≡ ok tt
    pub proposer : e.by ≡ p.from

  abbrev pub IsEntry : ProposalHash → ProposalState → Type 0
  IsEntry h (proposed p) = IsProposal h p
  IsEntry h (accepted p a) = IsProposal h p × IsAcceptance h p a
  IsEntry h (rejected p r) = IsProposal h p × IsRejection h p r
  IsEntry h (counter_proposed p n) = IsProposal h p × IsCounter h p n
  IsEntry h (executed p a e) = IsProposal h p × IsAcceptance h p a × IsExecution h p e
  IsEntry h (expired p t) = IsProposal h p × (p.valid_until_unix < t)

  abbrev pub IsSlot : ProposalHash → Option ProposalState → Type 0
  IsSlot h none = Unit
  IsSlot h (some st) = IsEntry h st

  abbrev pub IsValid : ProposalLog → Type 0
  IsValid log = (h : ProposalHash) → IsSlot h (lookup h log)

  on_accept-IsEntry :
      (a : Accept) (st : ProposalState)
      → Accept.verify c a ≡ ok tt
      → IsEntry a.proposal_hash st
      → IsEntry a.proposal_hash (on_accept a st).0
  unfolding on_accept
  on_accept-IsEntry a (proposed p) v h = ground (arith, bytes_eq_iff a.by p.to)
  on_accept-IsEntry a _ v h = h

  on_reject-IsEntry :
      (r : Reject) (st : ProposalState)
      → Reject.verify c r ≡ ok tt
      → IsEntry r.proposal_hash st
      → IsEntry r.proposal_hash (on_reject r st).0
  unfolding on_reject
  on_reject-IsEntry r (proposed p) v h = ground (arith, bytes_eq_iff r.by p.to)
  on_reject-IsEntry r _ v h = h

  on_counter-IsEntry :
      (n : CounterPropose) (st : ProposalState)
      → CounterPropose.verify c n ≡ ok tt
      → IsEntry n.original_proposal_hash st
      → IsEntry n.original_proposal_hash (on_counter n st).0
  unfolding on_counter
  on_counter-IsEntry n (proposed p) v h = ground (arith, bytes_eq_iff n.by p.to)
  on_counter-IsEntry n _ v h = h

  on_execute-IsEntry :
      (e : Execute) (st : ProposalState)
      → Execute.verify c e ≡ ok tt
      → IsEntry e.proposal_hash st
      → IsEntry e.proposal_hash (on_execute e st).0
  unfolding on_execute
  on_execute-IsEntry e (accepted p a) v h = ground (arith, bytes_eq_iff e.by p.from)
  on_execute-IsEntry e _ v h = h

  expire_state-IsEntry :
      (now : ℕ) (k : ProposalHash) (st : ProposalState)
      → IsEntry k st
      → IsEntry k (expire_state now st).0
  unfolding expire_state
  expire_state-IsEntry now k (proposed p) h = ground arith
  expire_state-IsEntry now k _ h = h

  map_state-IsSlot :
      (h : ProposalHash) (f : ProposalState → ProposalState) (o : Option ProposalState)
      → ((st : ProposalState) → IsEntry h st → IsEntry h (f st))
      → IsSlot h o
      → IsSlot h (map_state f o)
  map_state-IsSlot h f none keep v = tt
  map_state-IsSlot h f (some st) keep v = keep st v

  update_entry-IsValid :
      (h : ProposalHash) (arm : ProposalState → Arm) (log : ProposalLog)
      → ((st : ProposalState) → IsEntry h st → IsEntry h (arm st).0)
      → IsValid log
      → IsValid (update_entry h arm log).0
  update_entry-IsValid h arm log keep v k = elim (Bool-cases (bytes_eq h k)) [
    | inl same ↦
        rw (lookup-update_entry h k arm log, same, ← (bytes_eq_iff h k).0 same)
          (map_state-IsSlot h (λ st. (arm st).0) (lookup h log) keep (v h))
    | inr other ↦ rw (lookup-update_entry h k arm log, other) (v k)
  ]

  verified-IsValid :
      (r : Result ProtocolError (Unit {0})) (log : ProposalLog)
      (rest : ProposalLog → ProposalLog × Result ProtocolError (Unit {0}))
      → (r ≡ ok tt → IsValid (rest log).0)
      → IsValid log
      → IsValid (verified r log rest).0
  unfolding verified
  verified-IsValid (ok tt) log rest keep v = keep refl
  verified-IsValid (err e) log rest keep v = v

  get_or-IsEntry :
      (k : ProposalHash) (p : Propose) (o : Option ProposalState)
      → IsProposal k p
      → IsSlot k o
      → IsEntry k (get_or (proposed p) o)
  get_or-IsEntry k p none h v = h
  get_or-IsEntry k p (some st) h v = v

  record_propose-IsValid :
      (p : Propose) (log : ProposalLog) → IsValid log → IsValid (record_propose c p log).0
  unfolding record_propose
  record_propose-IsValid p log v k = elim (Result-cases (Propose.verify c p)) [
    | inr (e, failed) ↦ rw (failed, record_propose) (v k)
    | inl (tt, signed) ↦ elim (Bool-cases (bytes_eq (Propose.proposal_hash c p) k)) [
      | inl same ↦
          rw (lookup-record_propose c p k log signed, same)
            (get_or-IsEntry k p (lookup k log)
              (record { hashes = (bytes_eq_iff _ k).0 same; signed = signed }) (v k))
      | inr other ↦ rw (lookup-record_propose c p k log signed, other) (v k)
    ]
  ]

  expire_due-IsValid : (now : ℕ) (log : ProposalLog) → IsValid log → IsValid (expire_due now log).0
  expire_due-IsValid now log v k = rw (lookup-expire_due now k log) (
      map_state-IsSlot k (λ st. (expire_state now st).0) (lookup k log) (expire_state-IsEntry now k)
        (v k))

  -- Every message and every sweep keeps the invariant.
  pub handle-IsValid : (ev : Event) (log : ProposalLog) → IsValid log → IsValid (handle c ev log)
  unfolding handle apply_accept apply_reject apply_counter apply_execute
  handle-IsValid (propose p) log v = record_propose-IsValid p log v
  handle-IsValid (accept a) log v =
      verified-IsValid (Accept.verify c a) log _
        (λ s.
          update_entry-IsValid a.proposal_hash (on_accept a) log (λ st. on_accept-IsEntry a st s) v)
        v
  handle-IsValid (reject r) log v =
      verified-IsValid (Reject.verify c r) log _
        (λ s.
          update_entry-IsValid r.proposal_hash (on_reject r) log (λ st. on_reject-IsEntry r st s) v)
        v
  handle-IsValid (counter n) log v =
      verified-IsValid (CounterPropose.verify c n) log _
        (λ s.
          update_entry-IsValid n.original_proposal_hash (on_counter n) log
            (λ st. on_counter-IsEntry n st s) v)
        v
  handle-IsValid (execute e) log v =
      verified-IsValid (Execute.verify c e) log _
        (λ s.
          update_entry-IsValid e.proposal_hash (on_execute e) log (λ st. on_execute-IsEntry e st s)
            v)
        v
  handle-IsValid (sweep now) log v = expire_due-IsValid now log v

  pub run-IsValid : (evs : List Event) (log : ProposalLog) → IsValid log → IsValid (run c evs log)
  unfolding run
  run-IsValid [] log v = v
  run-IsValid (ev ∷ evs) log v = run-IsValid evs (handle c ev log) (handle-IsValid ev log v)

  -- After any history from the empty log, every entry is backed by the signatures that its state
  -- needs: whatever is found under `h` satisfies `IsEntry`.
  pub run-new-IsValid : (evs : List Event) → IsValid (run c evs [])
  unfolding lookup
  run-new-IsValid evs = run-IsValid evs [] (λ h. tt)
