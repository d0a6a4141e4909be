-- ===== src/Protocol/Log/Update.antt =====
-- What the operations do to the state under any one hash.
use transformer_vm_bank.Base.{
  ℕ, ◌≡◌, refl, Option, none, some, [], ◌∷◌, ok, arith, if◌then◌else◌, Option-cases, inl, inr,
}
use transformer_vm_bank.Bytes.{bytes_eq, bytes_eq_iff}
use transformer_vm_bank.Dict.{lookup, remove, lookup-insert, lookup-remove}
use transformer_vm_bank.Crypto.{Crypto}
use transformer_vm_bank.Protocol.Errors.{ProposalHash}
use transformer_vm_bank.Protocol.Propose
use transformer_vm_bank.Protocol.Propose.{Propose}
use transformer_vm_bank.Protocol.Log.{
  ProposalState, ProposalLog, Arm, proposed, update_entry, expire_state, expire_due, record_propose,
}

abbrev pub map_state : (ProposalState → ProposalState) → Option ProposalState → Option ProposalState
map_state f none = none
map_state f (some st) = some (f st)

abbrev pub get_or : ProposalState → Option ProposalState → ProposalState
get_or d none = d
get_or d (some st) = st

pub lookup-update_entry :
    (h k : ProposalHash) (arm : ProposalState → Arm) (log : ProposalLog)
    → lookup k (update_entry h arm log).0
      ≡ (if bytes_eq h k then map_state (λ st. (arm st).0) (lookup h log) else lookup k log)
unfolding update_entry
lookup-update_entry h k arm log = elim (Option-cases (lookup h log)) [
  | inl e ↦ ground (arith, bytes_eq_iff h k)
  | inr (st, e) ↦ ground (arith, lookup-insert h k (arm st).0 (remove h log), lookup-remove h k log)
]

pub lookup-expire_due :
    (now : ℕ) (k : ProposalHash) (log : ProposalLog)
    → lookup k (expire_due now log).0 ≡ map_state (λ st. (expire_state now st).0) (lookup k log)
unfolding expire_due lookup
lookup-expire_due now k [] = refl
lookup-expire_due now k ((h, st) ∷ log) = ground (arith, lookup-expire_due now k log)

-- Recording touches the proposal's own hash only, and only where nothing stands under it.
pub lookup-record_propose :
    (c : Crypto) (p : Propose) (k : ProposalHash) (log : ProposalLog)
    → Propose.verify c p ≡ ok tt
    → lookup k (record_propose c p log).0 ≡ (
        if bytes_eq (Propose.proposal_hash c p) k
        then some (get_or (proposed p) (lookup k log))
        else lookup k log)
unfolding record_propose
lookup-record_propose c p k log v =
    let h = Propose.proposal_hash c p in
    elim (Option-cases (lookup h log)) [
      | inl e ↦ ground (arith, lookup-insert h k (proposed p) log, bytes_eq_iff h k)
      | inr (st, e) ↦ ground (arith, bytes_eq_iff h k)
    ]
