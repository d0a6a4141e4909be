-- ===== src/Protocol/Log/Permanence.antt =====
-- What no history can undo: settled states, and the proposal under a hash.
use transformer_vm_bank.Base.{
  ◌≡◌, refl, Bool, true, false, Option, some, List, [], ◌∷◌, ◌++◌, Bool-cases, inl, inr, arith, ap,
}
use transformer_vm_bank.Dict.{lookup}
use transformer_vm_bank.Crypto.{Crypto}
use transformer_vm_bank.Protocol.Errors.{ProposalHash}
use transformer_vm_bank.Protocol.Propose.{Propose}
use transformer_vm_bank.Protocol.Accept.{Accept}
use transformer_vm_bank.Protocol.Execute.{Execute}
use transformer_vm_bank.Protocol.CounterPropose.{CounterPropose}
use transformer_vm_bank.Protocol.Log.{
  ProposalState, ProposalLog, proposed, accepted, rejected, counter_proposed, executed, expired,
  is_terminal, Event, run, handle,
}
use transformer_vm_bank.Protocol.Log.Lifecycle.{
  Step, stay, records, accepts, rejects, counters, executes, expires, Reach, here, next, run-Reach,
  handle-Step,
}

-- The states that no arrow leaves: the terminal ones, and `CounterProposed`.
abbrev is_settled : ProposalState → Bool
is_settled (proposed p) = false
is_settled (accepted p a) = false
is_settled _ = true

Step-settled :
    {m n : Option ProposalState}
    → Step m n
    → (st : ProposalState) → m ≡ some st
    → is_settled st ≡ true
    → n ≡ some st
Step-settled (stay o) st e h = e
Step-settled (records p) st e h = cc
Step-settled (accepts p a by in_time) st e h = ground arith
Step-settled (rejects p r by) st e h = ground arith
Step-settled (counters p n by) st e h = ground arith
Step-settled (executes p a x by) st e h = ground arith
Step-settled (expires p t late) st e h = ground arith

Reach-settled :
    {m n : Option ProposalState}
    → Reach m n
    → (st : ProposalState) → m ≡ some st
    → is_settled st ≡ true
    → n ≡ some st
Reach-settled here st e h = e
Reach-settled (next r s) st e h = Step-settled s st (Reach-settled r st e h) h

is_settled_of_terminal : (st : ProposalState) → is_terminal st ≡ true → is_settled st ≡ true
unfolding is_terminal
is_settled_of_terminal (proposed p) h = h
is_settled_of_terminal (accepted p a) h = cc
is_settled_of_terminal (counter_proposed p n) h = refl
is_settled_of_terminal _ h = refl

-- A terminal state (rejected, executed or expired) stays, whatever messages and sweeps follow.
pub run-is_terminal :
    (c : Crypto) (evs : List Event) (k : ProposalHash) (log : ProposalLog) (st : ProposalState)
    → lookup k log ≡ some st
    → is_terminal st ≡ true
    → lookup k (run c evs log) ≡ some st
run-is_terminal c evs k log st e h =
    Reach-settled (run-Reach c evs k log) st e (is_settled_of_terminal st h)

-- A counter-proposed entry stays as well, although `is_terminal` answers false for it.
pub run-counter_proposed :
    (c : Crypto) (evs : List Event) (k : ProposalHash) (log : ProposalLog) (p : Propose)
    (n : CounterPropose)
    → lookup k log ≡ some (counter_proposed p n)
    → (is_terminal (counter_proposed p n) ≡ false)
      × (lookup k (run c evs log) ≡ some (counter_proposed p n))
unfolding is_terminal
run-counter_proposed c evs k log p n e =
    (refl, Reach-settled (run-Reach c evs k log) (counter_proposed p n) e refl)

abbrev pub propose_of : ProposalState → Propose
propose_of (proposed p) = p
propose_of (accepted p a) = p
propose_of (rejected p r) = p
propose_of (counter_proposed p n) = p
propose_of (executed p a e) = p
propose_of (expired p t) = p

abbrev Holds : Propose → Option ProposalState → Type 0
Holds p o = (st : ProposalState) × (o ≡ some st) × (propose_of st ≡ p)

Step-Holds : {m n : Option ProposalState} (p : Propose) → Step m n → Holds p m → Holds p n
Step-Holds p (stay o) h = h
Step-Holds p (records q) (st, e, f) = cc
Step-Holds p (accepts q a by in_time) (st, e, f) = (accepted q a, refl, ground arith)
Step-Holds p (rejects q r by) (st, e, f) = (rejected q r, refl, ground arith)
Step-Holds p (counters q n by) (st, e, f) = (counter_proposed q n, refl, ground arith)
Step-Holds p (executes q a x by) (st, e, f) = (executed q a x, refl, ground arith)
Step-Holds p (expires q t late) (st, e, f) = (expired q t, refl, ground arith)

Reach-Holds : {m n : Option ProposalState} (p : Propose) → Reach m n → Holds p m → Holds p n
Reach-Holds p here h = h
Reach-Holds p (next r s) h = Step-Holds p s (Reach-Holds p r h)

-- The proposal recorded under a hash is never dropped and never replaced.
pub run-propose_of :
    (c : Crypto) (evs : List Event) (k : ProposalHash) (log : ProposalLog) (st : ProposalState)
    → lookup k log ≡ some st
    → (st' : ProposalState) × (lookup k (run c evs log) ≡ some st')
      × (propose_of st' ≡ propose_of st)
run-propose_of c evs k log st e = Reach-Holds (propose_of st) (run-Reach c evs k log) (st, e, refl)

abbrev is_executed : Option ProposalState → Bool
is_executed (some (executed p a x)) = true
is_executed _ = false

-- The only step into `Executed` is the one from `Accepted`.
Step-executed :
    {m n : Option ProposalState}
    → Step m n
    → is_executed m ≡ false
    → is_executed n ≡ true
    → (p : Propose) × (a : Accept) × (x : Execute) × (m ≡ some (accepted p a))
      × (n ≡ some (executed p a x))
Step-executed (stay o) before after = cc
Step-executed (records p) before after = cc
Step-executed (accepts p a by in_time) before after = cc
Step-executed (rejects p r by) before after = cc
Step-executed (counters p n by) before after = cc
Step-executed (executes p a x by) before after = (p, a, x, refl, refl)
Step-executed (expires p t late) before after = cc

module _ (c : Crypto) (k : ProposalHash) where
  executed_history :
      (evs : List Event) (log : ProposalLog) (p : Propose) (a : Accept) (x : Execute)
      → is_executed (lookup k log) ≡ false
      → lookup k (run c evs log) ≡ some (executed p a x)
      → (before after : List Event) × (evs ≡ before ++ after)
        × (lookup k (run c before log) ≡ some (accepted p a))
  unfolding run
  executed_history [] log p a x start e = ground arith
  executed_history (ev ∷ evs) log p a x start e =
      elim (Bool-cases (is_executed (lookup k (handle c ev log)))) [
        | inr waiting ↦
            let (before, after, split, h) =
              executed_history evs (handle c ev log) p a x waiting e in
            (ev ∷ before, after, ap (◌∷◌ ev) split, h)
        | inl done ↦
            let (q, b, y, was, is) = Step-executed (handle-Step c ev k log) start done in
            let stays =
              Reach-settled (run-Reach c evs k (handle c ev log)) (executed q b y) is refl in
            ([], ev ∷ evs, refl, ground arith)
      ]

  -- An entry that ends up executed was accepted, with the same proposal and acceptance, after some
  -- earlier part of the history.
  pub executed_after_accepted :
      (evs : List Event) (p : Propose) (a : Accept) (x : Execute)
      → lookup k (run c evs []) ≡ some (executed p a x)
      → (before after : List Event) × (evs ≡ before ++ after)
        × (lookup k (run c before []) ≡ some (accepted p a))
  unfolding lookup
  executed_after_accepted evs p a x e = executed_history evs [] p a x refl e
