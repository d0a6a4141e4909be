-- ===== src/Protocol/Tags.antt =====
-- The tags at the head of the canonical bytes keep the kinds of messages apart.
use transformer_vm_bank.Base.{◌≢◌, arith}
use transformer_vm_bank.Protocol.Propose
use transformer_vm_bank.Protocol.Propose.{Propose}
use transformer_vm_bank.Protocol.Accept
use transformer_vm_bank.Protocol.Accept.{Accept}
use transformer_vm_bank.Protocol.Reject
use transformer_vm_bank.Protocol.Reject.{Reject}
use transformer_vm_bank.Protocol.CounterPropose
use transformer_vm_bank.Protocol.CounterPropose.{CounterPropose}
use transformer_vm_bank.Protocol.Execute
use transformer_vm_bank.Protocol.Execute.{Execute}
use transformer_vm_bank.Protocol.Dispute
use transformer_vm_bank.Protocol.Dispute.{Dispute}

-- What is signed for a message of one kind is never what is signed for a message of another, over
-- the five protocol messages and the dispute.
pub signed_kinds_apart :
    (p : Propose) (a : Accept) (r : Reject) (n : CounterPropose) (x : Execute) (d : Dispute)
    → (Propose.canonical_bytes p ≢ Accept.canonical_bytes a)
      × (Propose.canonical_bytes p ≢ Reject.canonical_bytes r)
      × (Propose.canonical_bytes p ≢ CounterPropose.canonical_bytes n)
      × (Propose.canonical_bytes p ≢ Execute.canonical_bytes x)
      × (Propose.canonical_bytes p ≢ Dispute.canonical_bytes d)
      × (Accept.canonical_bytes a ≢ Reject.canonical_bytes r)
      × (Accept.canonical_bytes a ≢ CounterPropose.canonical_bytes n)
      × (Accept.canonical_bytes a ≢ Execute.canonical_bytes x)
      × (Accept.canonical_bytes a ≢ Dispute.canonical_bytes d)
      × (Reject.canonical_bytes r ≢ CounterPropose.canonical_bytes n)
      × (Reject.canonical_bytes r ≢ Execute.canonical_bytes x)
      × (Reject.canonical_bytes r ≢ Dispute.canonical_bytes d)
      × (CounterPropose.canonical_bytes n ≢ Execute.canonical_bytes x)
      × (CounterPropose.canonical_bytes n ≢ Dispute.canonical_bytes d)
      × (Execute.canonical_bytes x ≢ Dispute.canonical_bytes d)
unfolding Propose.canonical_bytes Accept.canonical_bytes Reject.canonical_bytes
    CounterPropose.canonical_bytes Execute.canonical_bytes Dispute.canonical_bytes
signed_kinds_apart p a r n x d = (
  λ e. ground arith,
  λ e. ground arith,
  λ e. ground arith,
  λ e. ground arith,
  λ e. ground arith,
  λ e. ground arith,
  λ e. ground arith,
  λ e. ground arith,
  λ e. ground arith,
  λ e. ground arith,
  λ e. ground arith,
  λ e. ground arith,
  λ e. ground arith,
  λ e. ground arith,
  λ e. ground arith,
)
