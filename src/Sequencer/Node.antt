-- ===== src/Sequencer/Node.antt =====
-- sequencer/src/node.rs and sequencer/src/block.rs: the node, and the production of a block. The
-- header is the one of light_client/src/header.rs, whose fields, `signing_bytes` and hash of the
-- signed header sequencer/src/block.rs repeats. The executor is any implementation of
-- `TraceExecutor`, and the clock's readings are arguments.
pub mod Settlement
pub mod Chain
pub mod Accepted
pub mod Commitment
pub mod Missing
pub mod Issuers
use transformer_vm_bank.Base.{
  ℕ, ◌+◌, ◌/◌, ◌%◌, ◌^◌, ◌++◌, Bool, true, false, Option, none, some, List, [], ◌∷◌, Result, ok,
  err, ◌>>=◌, ok_or, length, replicate, is_empty, if◌then◌else◌,
}
use transformer_vm_bank.Bytes.{Bytes, to_le_bytes}
use transformer_vm_bank.Crypto.{Crypto}
use transformer_vm_bank.Account.{Account}
use transformer_vm_bank.Smt.{get, put}
use transformer_vm_bank.LightClient.Header.{Header, SignedHeader, sign_header, full_hash}
use transformer_vm_bank.Sequencer.Tx.{TxKind, SignedTx, canonical}
use transformer_vm_bank.Sequencer.Registry.{IssuerRecord, Json, issuer_key}
use transformer_vm_bank.Sequencer.State
use transformer_vm_bank.Sequencer.State.{State, account, put_account}
use transformer_vm_bank.Sequencer.Mempool
use transformer_vm_bank.Sequencer.Mempool.{Mempool, ingress, drain}
use transformer_vm_bank.Sequencer.Trace.{NodeError, TraceResult, Witness, execute}

-- What `tx_list_hash` hashes.
unfoldable pub tx_list_bytes : List SignedTx → Bytes
tx_list_bytes [] = []
tx_list_bytes (tx ∷ txs) =
    to_le_bytes 4 (length (canonical tx) % 2 ^ 32)
    ++ (canonical tx ++ (tx.signature ++ tx_list_bytes txs))

unfoldable pub concat_hashes : List Bytes → Bytes
concat_hashes [] = []
concat_hashes (h ∷ hs) = h ++ concat_hashes hs

module _ (c : Crypto) where
  unfoldable pub tx_list_hash : List SignedTx → Bytes
  tx_list_hash txs = c.blake3 (tx_list_bytes txs)

  unfoldable pub combined_trace_hash : List Bytes → Bytes
  combined_trace_hash per_tx_traces = c.blake3 (concat_hashes per_tx_traces)

-- The configuration that blocks depend on, the key pair and the shared state.
pub record SequencerNode : Type 0 where
  pub block_size : ℕ
  pub keypair : Bytes
  pub state : State
  pub mempool : Mempool
  pub last_header : Option SignedHeader

unfoldable pub new : Crypto → (block_size : ℕ) (keypair : Bytes) → SequencerNode
new c block_size keypair = record {
  block_size = block_size;
  keypair = keypair;
  state = State.new c;
  mempool = Mempool.new 10000;
  last_header = none;
}

abbrev or_signer : Option Bytes → Bytes → Bytes
or_signer none signer = signer
or_signer (some r) signer = r

-- The accounts of a witness, in the order the primitive expects.
unfoldable pub witness_accounts : TxKind → SignedTx → State → Result NodeError (List Account)
witness_accounts TxKind.mint tx s = ok (account s (or_signer tx.recipient tx.signer) ∷ [])
witness_accounts TxKind.freeze tx s = ok (account s (or_signer tx.recipient tx.signer) ∷ [])
witness_accounts TxKind.burn tx s = ok (account s tx.signer ∷ [])
witness_accounts TxKind.transfer tx s = do
  to ← ok_or tx.recipient NodeError.transfer_missing_recipient
  ok (account s tx.signer ∷ account s to ∷ [])
witness_accounts TxKind.multi_asset tx s = err NodeError.multi_asset_witness_todo

unfoldable pub assemble_witness : State → SignedTx → ℕ → Result NodeError Witness
assemble_witness s tx epoch = do
  accounts ← witness_accounts tx.kind tx s
  ok (record { epoch = epoch; accounts = accounts; amount = tx.amount; flag = tx.flag })

module _ (c : Crypto) where
  unfoldable pub put_accounts : List Account → State → State
  put_accounts [] s = s
  put_accounts (a ∷ accounts) s = put_accounts accounts (put_account c a s)

-- `TraceExecutor::execute`
abbrev pub TraceExecutor : Type 0
TraceExecutor = SignedTx → Witness → Result NodeError TraceResult

module _ (c : Crypto) (executor : TraceExecutor) where
  -- The body of the loop over the transactions: the state, and the trace hash.
  unfoldable pub run_tx : ℕ → SignedTx → State → Result NodeError (State × Bytes)
  run_tx epoch tx s = do
    witness ← assemble_witness s tx epoch
    res ← executor tx witness
    ok (if res.success then put_accounts c res.updated_accounts s else s, res.trace_hash)

  -- The loop. An error ends it with the state as the transactions before left it.
  unfoldable pub run_txs : ℕ → List SignedTx → State → State × Result NodeError (List Bytes)
  run_txs epoch [] s = (s, ok [])
  run_txs epoch (tx ∷ txs) s = elim (run_tx epoch tx s) [
    | err e ↦ (s, err e)
    | ok (s', trace_hash) ↦
        let (s'', traces) = run_txs epoch txs s' in
        (s'', elim traces [ err e ↦ err e | ok hashes ↦ ok (trace_hash ∷ hashes) ])
  ]

module _ (c : Crypto) where
  -- The header that follows the last one.
  unfoldable pub next_header :
      SequencerNode → List SignedTx → State → List Bytes → (later : ℕ) → Header
  next_header node txs state per_tx_traces later = record {
    block_n = elim node.last_header [ none ↦ 0 | some h ↦ (h.header.block_n + 1) % 2 ^ 64 ];
    parent_hash = elim node.last_header [ none ↦ replicate 32 0 | some h ↦ full_hash c h ];
    prev_state_root = node.state.accounts.root;
    tx_list_hash = tx_list_hash c txs;
    trace_hash = combined_trace_hash c per_tx_traces;
    new_state_root = state.accounts.root;
    issuer_registry_root = state.registry.root;
    timestamp_ms = later;
    sequencer_pubkey = c.verifying_key node.keypair;
  }

  -- `produce_block` after its loop.
  unfoldable pub finish_block :
      SequencerNode
      → Mempool
      → List SignedTx
      → State
      → Result NodeError (List Bytes)
      → (later : ℕ) → SequencerNode × Result NodeError (Unit {0})
  finish_block node mempool txs state (err e) later =
      (record node { mempool = mempool; state = state }, err e)
  finish_block node mempool txs state (ok per_tx_traces) later =
      let signed = sign_header c (next_header node txs state per_tx_traces later) node.keypair in
      (record node { mempool = mempool; state = state; last_header = some signed }, ok tt)

  -- `now` and `later` are the two readings of the clock, in milliseconds.
  unfoldable pub produce_block :
      TraceExecutor → (now later : ℕ) → SequencerNode → SequencerNode × Result NodeError (Unit {0})
  produce_block executor now later node =
      let (mempool, txs) = drain node.block_size node.mempool in
      if is_empty node.mempool.queue
      then (node, ok tt)
      else if is_empty txs
      then (record node { mempool = mempool }, ok tt)
      else let (state, traces) = run_txs c executor ((now / 1000) % 2 ^ 32) txs node.state in
        finish_block node mempool txs state traces later

module _ (c : Crypto) (j : Json) where
  unfoldable pub register_issuer : IssuerRecord → SequencerNode → SequencerNode
  register_issuer issuer node =
      let s = node.state in
      record node {
        state = record s {
          registry = put c (issuer_key c issuer.asset_id) (j.to_vec issuer) s.registry;
        };
      }

  unfoldable pub lookup_issuer : ℕ → SequencerNode → Option IssuerRecord
  lookup_issuer asset_id node = elim (get node.state.registry (issuer_key c asset_id)) [
    | none ↦ none
    | some bytes ↦ j.from_slice bytes
  ]

-- `NativeTraceExecutor`
abbrev pub native : TraceExecutor
native tx w = execute tx.kind w

-- What happens to a node: a transaction arrives, an issuer is registered, the timer ticks.
pub data NodeEvent : Type 0 where
  submit : SignedTx → NodeEvent
  register : IssuerRecord → NodeEvent
  tick : (now later : ℕ) → NodeEvent

module _ (c : Crypto) (j : Json) (executor : TraceExecutor) where
  -- A refused transaction changes nothing; a block whose production fails is an error.
  unfoldable pub node_step : NodeEvent → SequencerNode → Result NodeError SequencerNode
  node_step (submit tx) node = ok (record node {
    mempool = (ingress c tx node.state (λ id. lookup_issuer c j id node) node.mempool).0;
  })
  node_step (register issuer) node = ok (register_issuer c j issuer node)
  node_step (tick now later) node =
      let (node', r) = produce_block c executor now later node in
      elim r [ err e ↦ err e | ok _ ↦ ok node' ]

  unfoldable pub run_node : List NodeEvent → SequencerNode → Result NodeError SequencerNode
  run_node [] node = ok node
  run_node (ev ∷ evs) node = do node' ← node_step ev node; run_node evs node'
