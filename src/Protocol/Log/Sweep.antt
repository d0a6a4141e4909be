-- ===== src/Protocol/Log/Sweep.antt =====
-- What `expire_due` flips and reports.
use transformer_vm_bank.Base.{
  ℕ, ◌≡◌, refl, ◌<◌, ◌⊎◌, inl, inr, Bool, true, false, Option, none, some, List, [], ◌∷◌, arith,
  any, ltb, ltb→lt, Bool-cases, Option-cases, Result, ok, err,
}
use transformer_vm_bank.Bytes.{bytes_eq, bytes_eq_iff}
use transformer_vm_bank.Dict.{lookup, remove, IsUnique, insert-IsUnique, remove-IsUnique}
use transformer_vm_bank.Crypto.{Crypto}
use transformer_vm_bank.Protocol.Errors.{ProposalHash, ProtocolError}
use transformer_vm_bank.Protocol.Propose
use transformer_vm_bank.Protocol.Propose.{Propose}
use transformer_vm_bank.Protocol.Accept
use transformer_vm_bank.Protocol.Reject
use transformer_vm_bank.Protocol.CounterPropose
use transformer_vm_bank.Protocol.Execute
use transformer_vm_bank.Protocol.Log.{
  ProposalState, ProposalLog, Arm, proposed, expired, on_accept, on_reject, on_counter, on_execute,
  update_entry, verified, expire_state, expire_due, record_propose, apply_accept, apply_reject,
  apply_counter, apply_execute, Event, propose, accept, reject, counter, execute, sweep, handle,
  run,
}
use transformer_vm_bank.Protocol.Log.Update.{map_state, lookup-expire_due}

update_entry-IsUnique :
    (h : ProposalHash) (arm : ProposalState → Arm) (log : ProposalLog)
    → IsUnique log
    → IsUnique (update_entry h arm log).0
unfolding update_entry
update_entry-IsUnique h arm log u = elim (Option-cases (lookup h log)) [
  | inl e ↦ rw (e, update_entry) u
  | inr (st, e) ↦
      rw (e, update_entry) (insert-IsUnique h (arm st).0 (remove h log) (remove-IsUnique h log u))
]

verified-IsUnique :
    (r : Result ProtocolError (Unit {0})) (h : ProposalHash) (arm : ProposalState → Arm)
    (log : ProposalLog)
    → IsUnique log
    → IsUnique (verified r log (update_entry h arm)).0
unfolding verified
verified-IsUnique (ok _) h arm log u = update_entry-IsUnique h arm log u
verified-IsUnique (err e) h arm log u = u

expire_due-IsUnique : (now : ℕ) (log : ProposalLog) → IsUnique log → IsUnique (expire_due now log).0
unfolding expire_due
expire_due-IsUnique now [] u = tt
expire_due-IsUnique now ((h, st) ∷ log) u =
    ground (arith, lookup-expire_due now h log, expire_due-IsUnique now log u.1)

module _ (c : Crypto) where
  record_propose-IsUnique :
      (p : Propose) (log : ProposalLog) → IsUnique log → IsUnique (record_propose c p log).0
  unfolding record_propose
  record_propose-IsUnique p log u =
      ground (arith, insert-IsUnique (Propose.proposal_hash c p) (proposed p) log u)

  handle-IsUnique : (ev : Event) (log : ProposalLog) → IsUnique log → IsUnique (handle c ev log)
  unfolding handle apply_accept apply_reject apply_counter apply_execute
  handle-IsUnique (propose p) log u = record_propose-IsUnique p log u
  handle-IsUnique (accept a) log u =
      verified-IsUnique (Accept.verify c a) a.proposal_hash (on_accept a) log u
  handle-IsUnique (reject r) log u =
      verified-IsUnique (Reject.verify c r) r.proposal_hash (on_reject r) log u
  handle-IsUnique (counter n) log u =
      verified-IsUnique (CounterPropose.verify c n) n.original_proposal_hash (on_counter n) log u
  handle-IsUnique (execute x) log u =
      verified-IsUnique (Execute.verify c x) x.proposal_hash (on_execute x) log u
  handle-IsUnique (sweep now) log u = expire_due-IsUnique now log u

  pub run-IsUnique :
      (evs : List Event) (log : ProposalLog) → IsUnique log → IsUnique (run c evs log)
  unfolding run
  run-IsUnique [] log u = u
  run-IsUnique (ev ∷ evs) log u = run-IsUnique evs (handle c ev log) (handle-IsUnique ev log u)

-- Whether the list of hashes names `k`.
abbrev pub reports : ProposalHash → List ProposalHash → Bool
reports k hs = any (λ h. bytes_eq h k) hs

abbrev flips : ℕ → Option ProposalState → Bool
flips now (some st) = (expire_state now st).1
flips now none = false

reports-expire_due :
    (now : ℕ) (k : ProposalHash) (log : ProposalLog)
    → IsUnique log
    → reports k (expire_due now log).1 ≡ flips now (lookup k log)
unfolding expire_due lookup
reports-expire_due now k [] u = refl
reports-expire_due now k ((h, st) ∷ log) u =
    ground (arith, bytes_eq_iff h k, reports-expire_due now k log u.1)

-- Whether a proposal stands whose last second lies before `now`.
abbrev pub is_overdue : ℕ → Option ProposalState → Bool
is_overdue now (some (proposed p)) = ltb p.valid_until_unix now
is_overdue now _ = false

-- What the sweep at `now` did under a hash that held `o` and holds `o'`.
abbrev pub Swept : ℕ → Option ProposalState → Option ProposalState → Bool → Type 0
Swept now o o' reported =
    ((p : Propose) × (o ≡ some (proposed p))
      × (p.valid_until_unix < now)
      × (o' ≡ some (expired p now))
      × (reported ≡ true))
    ⊎ ((is_overdue now o ≡ false) × (o' ≡ o) × (reported ≡ false))

expire_state-Swept :
    (now : ℕ) (o : Option ProposalState)
    → Swept now o (map_state (λ st. (expire_state now st).0) o) (flips now o)
unfolding expire_state
expire_state-Swept now none = inr (refl, refl, refl)
expire_state-Swept now (some (proposed p)) = elim (Bool-cases (ltb p.valid_until_unix now)) [
  | inl late ↦ inl (p, refl, ltb→lt _ _ late, ground arith, ground arith)
  | inr early ↦ inr (early, ground arith, ground arith)
]
expire_state-Swept now (some _) = inr (refl, refl, refl)

-- On any log that a history builds, `expire_due` marks exactly the standing proposals whose
-- `valid_until_unix` lies before `now` as `Expired` at `now`, reports exactly their hashes, and
-- leaves every other hash alone.
pub expire_due-Swept :
    (c : Crypto) (evs : List Event) (now : ℕ) (k : ProposalHash)
    → let log = run c evs [] in
      Swept now (lookup k log) (lookup k (expire_due now log).0) (reports k (expire_due now log).1)
expire_due-Swept c evs now k =
    rw
      (
        lookup-expire_due now k (run c evs []),
        reports-expire_due now k (run c evs []) (run-IsUnique c evs [] tt),
      )
      (expire_state-Swept now (lookup k (run c evs [])))
