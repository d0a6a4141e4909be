-- ===== src/Sequencer/Node/Chain.antt =====
-- The chain of the headers that a node signs.
use transformer_vm_bank.Base.{
  ℕ, ◌+◌, ◌/◌, ◌%◌, ◌^◌, ◌≡◌, ◌≢◌, refl, ap, Bool-cases, inl, inr, ◌⊎◌, none, some, List, [],
  Result, ok, err, arith, replicate, is_empty, is_empty-nil, is_empty-cons, take, drop, take-min,
  drop-min, take-nil, drop-none,
}
use transformer_vm_bank.Bytes.{Bytes, bytes_eq_iff}
use transformer_vm_bank.Crypto
use transformer_vm_bank.Crypto.{Crypto, Laws}
use transformer_vm_bank.LightClient.Header.{
  Header, SignedHeader, signing_bytes, sign_header, verify_header, full_hash,
}
use transformer_vm_bank.Sequencer.Mempool.{Mempool, drain}
use transformer_vm_bank.Sequencer.Tx.{SignedTx}
use transformer_vm_bank.Sequencer.State.{State}
use transformer_vm_bank.Sequencer.Trace.{NodeError}
use transformer_vm_bank.Sequencer.Node.{
  SequencerNode, TraceExecutor, run_txs, next_header, finish_block, produce_block, tx_list_hash,
  combined_trace_hash,
}

verify_header-sign_header :
    {c : Crypto}
    → Laws c
    → (kp : Bytes) (h : Header) → h.sequencer_pubkey ≡ c.verifying_key kp
    → verify_header c (c.verifying_key kp) (sign_header c h kp) ≡ ok tt
unfolding verify_header sign_header Crypto.sign Crypto.verify
verify_header-sign_header {c} l kp h key = ground (
  arith,
  bytes_eq_iff h.sequencer_pubkey (c.verifying_key kp),
  l.valid-verifying_key kp,
  l.check-sign kp (signing_bytes h),
)

-- The transactions that a tick takes, and the epoch at which it runs them.
abbrev pub taken : SequencerNode → List SignedTx
taken node = take node.block_size node.mempool.queue

abbrev pub epoch_of : ℕ → ℕ
epoch_of now = (now / 1000) % 2 ^ 32

module _ (c : Crypto) (executor : TraceExecutor) (now later : ℕ) where
  -- A tick that has run the transactions that it takes with the result `r`, and leaves the others.
  pub record Ran (node node' : SequencerNode) (r : Result NodeError (List Bytes)) : Type 0 where
    pub some_taken : taken node ≢ []
    pub executed : run_txs c executor (epoch_of now) (taken node) node.state ≡ (node'.state, r)
    pub left : node'.mempool.queue ≡ drop node.block_size node.mempool.queue

  -- A tick that signs the header `s` over the transactions that it takes, of the trace hashes `hashes`.
  pub record Follows (node node' : SequencerNode) (s : SignedHeader) (hashes : List Bytes)
      : Type 0 where
    pub ran : Ran node node' (ok hashes)
    pub last : node'.last_header ≡ some s
    pub signed : verify_header c (c.verifying_key node.keypair) s ≡ ok tt
    pub number :
        s.header.block_n
        ≡ elim node.last_header [ none ↦ 0 | some h ↦ (h.header.block_n + 1) % 2 ^ 64 ]
    pub parent :
        s.header.parent_hash
        ≡ elim node.last_header [ none ↦ replicate 32 0 | some h ↦ full_hash c h ]
    pub before : s.header.prev_state_root ≡ node.state.accounts.root
    pub transactions : s.header.tx_list_hash ≡ tx_list_hash c (taken node)
    pub traces : s.header.trace_hash ≡ combined_trace_hash c hashes
    pub after : s.header.new_state_root ≡ node'.state.accounts.root
    pub issuers : s.header.issuer_registry_root ≡ node'.state.registry.root
    pub time : s.header.timestamp_ms ≡ later

  -- The outcomes of a tick: nothing to take, an error without a header, or a header that follows the
  -- last.
  abbrev pub Ticked : SequencerNode → SequencerNode × Result NodeError (Unit {0}) → Type 0
  Ticked node (node', r) =
      (node'.keypair ≡ node.keypair)
      × (((taken node ≡ []) × (node' ≡ node) × (r ≡ ok tt))
          ⊎ (((e : NodeError) × Ran node node' (err e)
                × (node'.last_header ≡ node.last_header)
                × (r ≡ err e))
              ⊎ ((s : SignedHeader) × (hashes : List Bytes) × Follows node node' s hashes
                  × (r ≡ ok tt))))

  finish_block-Ticked :
      Laws c
      → (node : SequencerNode) (mempool : Mempool) (state : State)
        (traces : Result NodeError (List Bytes))
      → taken node ≢ []
      → mempool.queue ≡ drop node.block_size node.mempool.queue
      → run_txs c executor (epoch_of now) (taken node) node.state ≡ (state, traces)
      → Ticked node (finish_block c node mempool (taken node) state traces later)
  unfolding finish_block
  finish_block-Ticked l node mempool state (err e) busy rest run =
      (refl, inr (inl (e, record { some_taken = busy; executed = run; left = rest }, refl, refl)))
  finish_block-Ticked l node mempool state (ok hashes) busy rest run =
      let h = next_header c node (taken node) state hashes later in
      (
        refl,
        inr (
            inr (
              sign_header c h node.keypair,
              hashes,
              record {
                ran = record { some_taken = busy; executed = run; left = rest };
                last = refl;
                signed = verify_header-sign_header l node.keypair h (unfold next_header in refl);
                number = unfold next_header sign_header in refl;
                parent = unfold next_header sign_header in refl;
                before = unfold next_header sign_header in refl;
                transactions = unfold next_header sign_header in refl;
                traces = unfold next_header sign_header in refl;
                after = unfold next_header sign_header in refl;
                issuers = unfold next_header sign_header in refl;
                time = unfold next_header sign_header in refl;
              },
              refl,
            )),
      )

drain-parts :
    (n : ℕ) (m : Mempool) → drain n m ≡ (record m { queue = drop n m.queue }, take n m.queue)
unfolding drain
drain-parts n m = rw (drop-min n m.queue, take-min n m.queue) refl

pub produce_block-Ticked :
    {c : Crypto}
    → Laws c
    → (executor : TraceExecutor) (now later : ℕ) (node : SequencerNode)
    → Ticked c executor now later node (produce_block c executor now later node)
unfolding produce_block
produce_block-Ticked {c} l executor now later node =
    let parts = drain-parts node.block_size node.mempool in
    elim (Bool-cases (is_empty node.mempool.queue)) [
      | inl idle ↦
          let none_taken : taken node ≡ [] =
            rw (is_empty-nil node.mempool.queue idle) (take-nil node.block_size) in
          rw idle (refl, inl (none_taken, refl, refl))
      | inr busy ↦ elim (Bool-cases (is_empty (taken node))) [
        | inl none_taken ↦
            let empty = is_empty-nil (taken node) none_taken in
            rw (busy, parts, none_taken)
              (
                refl,
                inl (
                  empty,
                  ap (λ q. record node { mempool = record (node.mempool) { queue = q } })
                      (drop-none node.block_size node.mempool.queue empty),
                  refl,
                ),
              )
        | inr some_taken ↦
            rw (busy, parts, some_taken)
              (finish_block-Ticked c executor now later l node
                (record (node.mempool) { queue = drop node.block_size node.mempool.queue })
                (run_txs c executor (epoch_of now) (taken node) node.state).0
                (run_txs c executor (epoch_of now) (taken node) node.state).1
                (is_empty-cons (taken node) some_taken) refl refl)
      ]
    ]
