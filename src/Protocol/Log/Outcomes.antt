-- ===== src/Protocol/Log/Outcomes.antt =====
-- When each method succeeds, and what it then leaves.
use transformer_vm_bank.Base.{◌≡◌, refl, ◌≤◌, ◌↔◌, Option, none, some, ok, arith, if◌then◌else◌}
use transformer_vm_bank.Bytes.{bytes_eq, bytes_eq_iff}
use transformer_vm_bank.Dict.{lookup}
use transformer_vm_bank.Crypto.{Crypto}
use transformer_vm_bank.Protocol.Errors.{ProposalHash}
use transformer_vm_bank.Protocol.Propose.{Propose}
use transformer_vm_bank.Protocol.Accept
use transformer_vm_bank.Protocol.Accept.{Accept}
use transformer_vm_bank.Protocol.Reject
use transformer_vm_bank.Protocol.Reject.{Reject}
use transformer_vm_bank.Protocol.CounterPropose
use transformer_vm_bank.Protocol.CounterPropose.{CounterPropose}
use transformer_vm_bank.Protocol.Execute
use transformer_vm_bank.Protocol.Execute.{Execute}
use transformer_vm_bank.Protocol.Log.{
  ProposalState, ProposalLog, proposed, accepted, rejected, counter_proposed, executed, on_accept,
  on_reject, on_counter, on_execute, apply_accept, apply_reject, apply_counter, apply_execute,
}
use transformer_vm_bank.Protocol.Log.Method.{arm_result, method, method-ok, method-runs}

module _ (c : Crypto) where
  pub record CanAccept (a : Accept) (log : ProposalLog) (p : Propose) : Type 0 where
    pub signed : Accept.verify c a ≡ ok tt
    pub standing : lookup a.proposal_hash log ≡ some (proposed p)
    pub by_addressee : a.by ≡ p.to
    pub in_time : a.accepted_at_unix ≤ p.valid_until_unix

  on_accept-ok :
      (a : Accept) (log : ProposalLog) (o : Option ProposalState)
      → Accept.verify c a ≡ ok tt
      → lookup a.proposal_hash log ≡ o
      → arm_result a.proposal_hash (on_accept a) o ≡ ok tt
      → (p : Propose) × CanAccept a log p
  unfolding on_accept
  on_accept-ok a log none s e h = cc
  on_accept-ok a log (some (proposed p)) s e h = (p, ground (arith, bytes_eq_iff a.by p.to))
  on_accept-ok a log (some _) s e h = cc

  on_accept-runs :
      (a : Accept) (log : ProposalLog) (p : Propose)
      → CanAccept a log p
      → on_accept a (proposed p) ≡ (accepted p a, ok tt)
  unfolding on_accept
  on_accept-runs a log p can = ground (arith, bytes_eq_iff a.by p.to, can.by_addressee, can.in_time)

  -- `apply_accept` succeeds exactly on a signed acceptance, by the addressee and in time, of a
  -- proposal that stands as `Proposed`; then it stands as `Accepted`, and no other hash changes.
  pub apply_accept-ok_iff :
      (a : Accept) (log : ProposalLog)
      → ((apply_accept c a log).1 ≡ ok tt) ↔ (
          (p : Propose) × CanAccept a log p
          × ((k : ProposalHash)
              → lookup k (apply_accept c a log).0
                ≡ (if bytes_eq a.proposal_hash k then some (accepted p a) else lookup k log)))
  unfolding apply_accept
  apply_accept-ok_iff a log = (
    λ h.
        let (s, arm_ok) = method-ok (Accept.verify c a) a.proposal_hash (on_accept a) log h in
        let (p, can) = on_accept-ok a log (lookup a.proposal_hash log) s refl arm_ok in
        (p, can, (runs p can).1),
    λ (p, can, _). (runs p can).0,
  )
    where
      runs :
          (p : Propose)
          → CanAccept a log p
          → ((method (Accept.verify c a) a.proposal_hash (on_accept a) log).1 ≡ ok tt)
            × ((k : ProposalHash)
                → lookup k (method (Accept.verify c a) a.proposal_hash (on_accept a) log).0
                  ≡ (if bytes_eq a.proposal_hash k then some (accepted p a) else lookup k log))
      runs p can =
          method-runs (Accept.verify c a) a.proposal_hash (on_accept a) log (proposed p)
            (accepted p a) can.signed can.standing (on_accept-runs a log p can)

  pub record CanReject (r : Reject) (log : ProposalLog) (p : Propose) : Type 0 where
    pub signed : Reject.verify c r ≡ ok tt
    pub standing : lookup r.proposal_hash log ≡ some (proposed p)
    pub by_addressee : r.by ≡ p.to

  on_reject-ok :
      (r : Reject) (log : ProposalLog) (o : Option ProposalState)
      → Reject.verify c r ≡ ok tt
      → lookup r.proposal_hash log ≡ o
      → arm_result r.proposal_hash (on_reject r) o ≡ ok tt
      → (p : Propose) × CanReject r log p
  unfolding on_reject
  on_reject-ok r log none s e h = cc
  on_reject-ok r log (some (proposed p)) s e h = (p, ground (arith, bytes_eq_iff r.by p.to))
  on_reject-ok r log (some _) s e h = cc

  on_reject-runs :
      (r : Reject) (log : ProposalLog) (p : Propose)
      → CanReject r log p
      → on_reject r (proposed p) ≡ (rejected p r, ok tt)
  unfolding on_reject
  on_reject-runs r log p can = ground (arith, bytes_eq_iff r.by p.to, can.by_addressee)

  -- `apply_reject` succeeds exactly on a rejection signed by the addressee of a proposal that stands
  -- as `Proposed`; then it stands as `Rejected`, and no other hash changes.
  pub apply_reject-ok_iff :
      (r : Reject) (log : ProposalLog)
      → ((apply_reject c r log).1 ≡ ok tt) ↔ (
          (p : Propose) × CanReject r log p
          × ((k : ProposalHash)
              → lookup k (apply_reject c r log).0
                ≡ (if bytes_eq r.proposal_hash k then some (rejected p r) else lookup k log)))
  unfolding apply_reject
  apply_reject-ok_iff r log = (
    λ h.
        let (s, arm_ok) = method-ok (Reject.verify c r) r.proposal_hash (on_reject r) log h in
        let (p, can) = on_reject-ok r log (lookup r.proposal_hash log) s refl arm_ok in
        (p, can, (runs p can).1),
    λ (p, can, _). (runs p can).0,
  )
    where
      runs :
          (p : Propose)
          → CanReject r log p
          → ((method (Reject.verify c r) r.proposal_hash (on_reject r) log).1 ≡ ok tt)
            × ((k : ProposalHash)
                → lookup k (method (Reject.verify c r) r.proposal_hash (on_reject r) log).0
                  ≡ (if bytes_eq r.proposal_hash k then some (rejected p r) else lookup k log))
      runs p can =
          method-runs (Reject.verify c r) r.proposal_hash (on_reject r) log (proposed p)
            (rejected p r) can.signed can.standing (on_reject-runs r log p can)

  pub record CanCounter (n : CounterPropose) (log : ProposalLog) (p : Propose) : Type 0 where
    pub signed : CounterPropose.verify c n ≡ ok tt
    pub standing : lookup n.original_proposal_hash log ≡ some (proposed p)
    pub by_addressee : n.by ≡ p.to

  on_counter-ok :
      (n : CounterPropose) (log : ProposalLog) (o : Option ProposalState)
      → CounterPropose.verify c n ≡ ok tt
      → lookup n.original_proposal_hash log ≡ o
      → arm_result n.original_proposal_hash (on_counter n) o ≡ ok tt
      → (p : Propose) × CanCounter n log p
  unfolding on_counter
  on_counter-ok n log none s e h = cc
  on_counter-ok n log (some (proposed p)) s e h = (p, ground (arith, bytes_eq_iff n.by p.to))
  on_counter-ok n log (some _) s e h = cc

  on_counter-runs :
      (n : CounterPropose) (log : ProposalLog) (p : Propose)
      → CanCounter n log p
      → on_counter n (proposed p) ≡ (counter_proposed p n, ok tt)
  unfolding on_counter
  on_counter-runs n log p can = ground (arith, bytes_eq_iff n.by p.to, can.by_addressee)

  -- `apply_counter` succeeds exactly on a counter-proposal signed by the addressee of a proposal that
  -- stands as `Proposed`; then it stands as `CounterProposed`, and no other hash changes.
  pub apply_counter-ok_iff :
      (n : CounterPropose) (log : ProposalLog)
      → ((apply_counter c n log).1 ≡ ok tt) ↔ (
          (p : Propose) × CanCounter n log p
          × ((k : ProposalHash)
              → lookup k (apply_counter c n log).0 ≡ (
                  if bytes_eq n.original_proposal_hash k
                  then some (counter_proposed p n)
                  else lookup k log)))
  unfolding apply_counter
  apply_counter-ok_iff n log = (
    λ h.
        let (s, arm_ok) =
          method-ok (CounterPropose.verify c n) n.original_proposal_hash (on_counter n) log h in
        let (p, can) = on_counter-ok n log (lookup n.original_proposal_hash log) s refl arm_ok in
        (p, can, (runs p can).1),
    λ (p, can, _). (runs p can).0,
  )
    where
      runs :
          (p : Propose)
          → CanCounter n log p
          → ((method (CounterPropose.verify c n) n.original_proposal_hash (on_counter n) log).1
              ≡ ok tt)
            × ((k : ProposalHash)
                → lookup k
                    (method
                      (CounterPropose.verify c n)
                      n.original_proposal_hash
                      (on_counter n)
                      log).0
                  ≡ (if bytes_eq n.original_proposal_hash k
                      then some (counter_proposed p n)
                      else lookup k log))
      runs p can =
          method-runs (CounterPropose.verify c n) n.original_proposal_hash (on_counter n) log
            (proposed p) (counter_proposed p n) can.signed can.standing
            (on_counter-runs n log p can)

  pub record CanExecute (x : Execute) (log : ProposalLog) (p : Propose) (q : Accept) : Type 0 where
    pub signed : Execute.verify c x ≡ ok tt
    pub standing : lookup x.proposal_hash log ≡ some (accepted p q)
    pub by_proposer : x.by ≡ p.from

  on_execute-ok :
      (x : Execute) (log : ProposalLog) (o : Option ProposalState)
      → Execute.verify c x ≡ ok tt
      → lookup x.proposal_hash log ≡ o
      → arm_result x.proposal_hash (on_execute x) o ≡ ok tt
      → (p : Propose) × (q : Accept) × CanExecute x log p q
  unfolding on_execute
  on_execute-ok x log none s e h = cc
  on_execute-ok x log (some (accepted p q)) s e h = (p, q, ground (arith, bytes_eq_iff x.by p.from))
  on_execute-ok x log (some _) s e h = cc

  on_execute-runs :
      (x : Execute) (log : ProposalLog) (p : Propose) (q : Accept)
      → CanExecute x log p q
      → on_execute x (accepted p q) ≡ (executed p q x, ok tt)
  unfolding on_execute
  on_execute-runs x log p q can = ground (arith, bytes_eq_iff x.by p.from, can.by_proposer)

  -- `apply_execute` succeeds exactly on an execution signed by the proposer of a proposal that stands
  -- as `Accepted`; then it stands as `Executed`, and no other hash changes. No time is looked at.
  pub apply_execute-ok_iff :
      (x : Execute) (log : ProposalLog)
      → ((apply_execute c x log).1 ≡ ok tt) ↔ (
          (p : Propose) × (q : Accept) × CanExecute x log p q
          × ((k : ProposalHash)
              → lookup k (apply_execute c x log).0
                ≡ (if bytes_eq x.proposal_hash k then some (executed p q x) else lookup k log)))
  unfolding apply_execute
  apply_execute-ok_iff x log = (
    λ h.
        let (s, arm_ok) = method-ok (Execute.verify c x) x.proposal_hash (on_execute x) log h in
        let (p, q, can) = on_execute-ok x log (lookup x.proposal_hash log) s refl arm_ok in
        (p, q, can, (runs p q can).1),
    λ (p, q, can, _). (runs p q can).0,
  )
    where
      runs :
          (p : Propose) (q : Accept)
          → CanExecute x log p q
          → ((method (Execute.verify c x) x.proposal_hash (on_execute x) log).1 ≡ ok tt)
            × ((k : ProposalHash)
                → lookup k (method (Execute.verify c x) x.proposal_hash (on_execute x) log).0
                  ≡ (if bytes_eq x.proposal_hash k then some (executed p q x) else lookup k log))
      runs p q can =
          method-runs (Execute.verify c x) x.proposal_hash (on_execute x) log (accepted p q)
            (executed p q x) can.signed can.standing (on_execute-runs x log p q can)
