-- ===== src/Protocol/Log/Method.antt =====
-- The shape of the four methods that answer a proposal: check the signature, take the entry, put
-- one back.
use transformer_vm_bank.Base.{
  ◌≡◌, refl, Option, none, some, Result, ok, err, arith, if◌then◌else◌, Option-cases, inl, inr, ap,
  ◌∙◌,
}
use transformer_vm_bank.Bytes.{bytes_eq, bytes_eq_iff}
use transformer_vm_bank.Dict.{lookup}
use transformer_vm_bank.Protocol.Errors.{ProposalHash, ProtocolError}
use transformer_vm_bank.Protocol.Log.{ProposalState, ProposalLog, Arm, update_entry, verified}
use transformer_vm_bank.Protocol.Log.Update.{map_state, lookup-update_entry}

-- What `update_entry` returns.
abbrev pub arm_result :
    ProposalHash → (ProposalState → Arm) → Option ProposalState → Result ProtocolError (Unit {0})
arm_result h arm none = err (ProtocolError.unknown_proposal h)
arm_result h arm (some st) = (arm st).1

pub update_entry-result :
    (h : ProposalHash) (arm : ProposalState → Arm) (log : ProposalLog)
    → (update_entry h arm log).1 ≡ arm_result h arm (lookup h log)
unfolding update_entry
update_entry-result h arm log = elim (Option-cases (lookup h log)) [
  | inl e ↦ rw (e, update_entry)
  | inr (st, e) ↦ rw (e, update_entry)
]

-- The shape that four of the methods have.
abbrev pub method :
    Result ProtocolError (Unit {0})
    → ProposalHash
    → (ProposalState → Arm)
    → ProposalLog
    → ProposalLog × Result ProtocolError (Unit {0})
method r h arm log = verified r log (update_entry h arm)

pub method-ok :
    (r : Result ProtocolError (Unit {0})) (h : ProposalHash) (arm : ProposalState → Arm)
    (log : ProposalLog)
    → (method r h arm log).1 ≡ ok tt
    → (r ≡ ok tt) × (arm_result h arm (lookup h log) ≡ ok tt)
unfolding verified
method-ok (ok tt) h arm log e = (refl, rw (← update_entry-result h arm log) e)
method-ok (err x) h arm log e = cc

pub method-runs :
    (r : Result ProtocolError (Unit {0})) (h : ProposalHash) (arm : ProposalState → Arm)
    (log : ProposalLog) (st st' : ProposalState)
    → r ≡ ok tt
    → lookup h log ≡ some st
    → arm st ≡ (st', ok tt)
    → ((method r h arm log).1 ≡ ok tt)
      × ((k : ProposalHash)
          → lookup k (method r h arm log).0 ≡ (if bytes_eq h k then some st' else lookup k log))
unfolding verified
method-runs (ok tt) h arm log st st' s found runs = (
  update_entry-result h arm log ∙ rw found (ap (λ (x : Arm). x.1) runs),
  λ k.
      rw (lookup-update_entry h k arm log, found)
        (ap (λ (x : Arm). if bytes_eq h k then some x.0 else lookup k log) runs),
)
method-runs (err x) h arm log st st' s found runs = cc

-- An arm that refuses leaves the state as it was.
abbrev pub Careful : (ProposalState → Arm) → Type 0
Careful arm = (st : ProposalState) (e : ProtocolError) → (arm st).1 ≡ err e → (arm st).0 ≡ st

map_state-Careful :
    (h : ProposalHash) (arm : ProposalState → Arm) (o : Option ProposalState) (e : ProtocolError)
    → Careful arm
    → arm_result h arm o ≡ err e
    → map_state (λ st. (arm st).0) o ≡ o
map_state-Careful h arm none e careful f = refl
map_state-Careful h arm (some st) e careful f = ap some (careful st e f)

pub method-err :
    (r : Result ProtocolError (Unit {0})) (h : ProposalHash) (arm : ProposalState → Arm)
    (log : ProposalLog) (e : ProtocolError)
    → Careful arm
    → (method r h arm log).1 ≡ err e
    → (k : ProposalHash) → lookup k (method r h arm log).0 ≡ lookup k log
unfolding verified
method-err (err x) h arm log e careful f k = refl
method-err (ok tt) h arm log e careful f k =
    let refused : arm_result h arm (lookup h log) ≡ err e =
      rw (← update_entry-result h arm log) f in
    ground (
      arith,
      lookup-update_entry h k arm log,
      map_state-Careful h arm (lookup h log) e careful refused,
      bytes_eq_iff h k,
    )
