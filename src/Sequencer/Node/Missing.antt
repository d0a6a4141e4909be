-- ===== src/Sequencer/Node/Missing.antt =====
-- A transfer that names no recipient.
use Prim.Native.Nat.{min}
use transformer_vm_bank.Base.{
  ℕ, ◌/◌, ◌%◌, ◌^◌, ◌≡◌, refl, ◌<◌, Option, none, [], ◌∷◌, ok, err, arith,
}
use transformer_vm_bank.Crypto.{Crypto}
use transformer_vm_bank.Sequencer.Tx.{TxKind, SignedTx}
use transformer_vm_bank.Sequencer.Registry.{IssuerRecord}
use transformer_vm_bank.Sequencer.State.{State}
use transformer_vm_bank.Sequencer.Mempool.{Mempool, validate, ingress, drain}
use transformer_vm_bank.Sequencer.Trace.{NodeError}
use transformer_vm_bank.Sequencer.Node.{
  SequencerNode, TraceExecutor, witness_accounts, assemble_witness, run_tx, run_txs, finish_block,
  produce_block,
}

queued :
    (c : Crypto) (registry : ℕ → Option IssuerRecord) (tx : SignedTx) (s : State) (m : Mempool)
    → validate c tx s registry ≡ ok tt
    → m.queue ≡ []
    → 0 < m.capacity
    → ingress c tx s registry m ≡ (record m { queue = tx ∷ [] }, ok tt)
unfolding ingress
queued c registry tx s m valid idle room = rw (idle, valid) (ground arith)

drained :
    (n : ℕ) (tx : SignedTx) (m : Mempool)
    → 0 < n
    → drain n (record m { queue = tx ∷ [] }) ≡ (record m { queue = [] }, tx ∷ [])
unfolding drain
drained n tx m size = let one : min n 1 ≡ 1 = omega arith in rw one refl

module _ (c : Crypto) (executor : TraceExecutor) (tx : SignedTx) where
  run_txs-missing :
      (epoch : ℕ) (s : State)
      → tx.kind ≡ TxKind.transfer
      → tx.recipient ≡ none
      → run_txs c executor epoch (tx ∷ []) s ≡ (s, err NodeError.transfer_missing_recipient)
  unfolding run_txs run_tx assemble_witness witness_accounts
  run_txs-missing epoch s kind to = rw (kind, to) refl

  produce_block-missing :
      (now later : ℕ) (node : SequencerNode)
      → tx.kind ≡ TxKind.transfer
      → tx.recipient ≡ none
      → 0 < node.block_size
      → produce_block c executor now later
          (record node { mempool = record (node.mempool) { queue = tx ∷ [] } })
        ≡ (
          record node { mempool = record (node.mempool) { queue = [] } },
          err NodeError.transfer_missing_recipient,
        )
  unfolding produce_block finish_block
  produce_block-missing now later node kind to size =
      rw
        (
          drained node.block_size tx node.mempool size,
          run_txs-missing ((now / 1000) % 2 ^ 32) node.state kind to,
        )
        refl

-- A valid transfer without a recipient is queued by a mempool that is empty and has room, and then
-- makes the production of the block fail, with any executor and a block size that is not 0: no header
-- is signed and the queue is empty again.
pub recipientless_transfer_fails :
    (c : Crypto) (executor : TraceExecutor) (registry : ℕ → Option IssuerRecord) (now later : ℕ)
    (tx : SignedTx) (node : SequencerNode)
    → validate c tx node.state registry ≡ ok tt
    → tx.kind ≡ TxKind.transfer
    → tx.recipient ≡ none
    → node.mempool.queue ≡ []
    → 0 < node.mempool.capacity
    → 0 < node.block_size
    → let (mempool, r) = ingress c tx node.state registry node.mempool in
      let (node', r') = produce_block c executor now later (record node { mempool = mempool }) in
      (r ≡ ok tt)
      × (r' ≡ err NodeError.transfer_missing_recipient)
      × (node'.last_header ≡ node.last_header)
      × (node'.mempool.queue ≡ [])
recipientless_transfer_fails c executor registry now later tx node valid kind to idle room size =
    rw
      (
        queued c registry tx node.state node.mempool valid idle room,
        produce_block-missing c executor tx now later node kind to size,
      )
      (refl, refl, refl, refl)
