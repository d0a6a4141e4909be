-- ===== src/Sequencer/Tests/Blocks.antt =====
-- A day of a node, and the examples of the theorems on blocks and issuers.
use transformer_vm_bank.Base.{◌≡◌, refl, ◌⊎◌, none, some, List, [], ◌∷◌, ok, err, arith, replicate}
use transformer_vm_bank.Bytes.{bytes_eq, to_le_bytes, from_le_bytes}
use transformer_vm_bank.Bytes.Slice.{overwrite, modify}
use transformer_vm_bank.Dict.{lookup, insert}
use transformer_vm_bank.Crypto
use transformer_vm_bank.Crypto.{Collision, hash_bytes, hash_concat, hash_three}
use transformer_vm_bank.Crypto.Toy.{toy, toy-Laws}
use transformer_vm_bank.Account
use transformer_vm_bank.Account.{
  Account, pubkey, balance, is_frozen, nonce, set_balance, clear_flag, set_nonce, set_last_active,
}
use transformer_vm_bank.Smt
use transformer_vm_bank.Smt.{
  put, get, default_hashes, defaults_from, leaf_hash, climb, walk, compute_path_to_leaf, bit,
}
use transformer_vm_bank.LightClient.Header.{SignedHeader, sign_header, full_hash, signing_bytes}
use transformer_vm_bank.LightClient.Verify.{check_headers}
use transformer_vm_bank.Sequencer.Tx.{SignedTx, canonical, kind_byte, push_array, push_vec}
use transformer_vm_bank.Sequencer.Registry.{Json, issuer_key}
use transformer_vm_bank.Sequencer.State.{account, account_of, put_account}
use transformer_vm_bank.Sequencer.Mempool
use transformer_vm_bank.Sequencer.Mempool.{
  Mempool, validate, ingress, drain, next_nonce, is_payment,
}
use transformer_vm_bank.Sequencer.Trace.{NodeError, transfer, execute, cannot_pay, debit, credit}
use transformer_vm_bank.Sequencer.Node.{
  SequencerNode, native, run_tx, produce_block, NodeEvent, submit, register, tick, finish_block,
  next_header, run_txs, assemble_witness, witness_accounts, put_accounts, tx_list_bytes,
  combined_trace_hash, concat_hashes, run_node, node_step, tx_list_hash, register_issuer,
  lookup_issuer,
}
use transformer_vm_bank.Sequencer.Node.Accepted.{last_of, run_node-check_headers}
use transformer_vm_bank.Sequencer.Node.Commitment.{IsListed, tx_list_hash-injective}
use transformer_vm_bank.Sequencer.Node.Missing.{recipientless_transfer_fails}
use transformer_vm_bank.Sequencer.Tests.{
  bob, bank, dollar, issuers, ledger, unsigned_payment, pay, queue,
}

abbrev listed : SignedTx
listed = record (unsigned_payment (some bob)) { signature = replicate 64 0 }

listed-IsListed : IsListed listed
unfolding canonical kind_byte push_array push_vec to_le_bytes
listed-IsListed = record {
  wire = record {
    asset_id_u32 = omega arith;
    nonce_u64 = omega arith;
    signer_len = refl;
    recipient_len = refl;
    amount_len = refl;
    court_order_len = tt;
    multi_payload_len = tt;
    metadata_len = tt;
  };
  canonical_len = omega arith;
  signature_len = refl;
}

tx_list_hash-injective_example :
    (◌≡◌ {A = List SignedTx} (listed ∷ []) (listed ∷ [])) ⊎ Collision toy
tx_list_hash-injective_example =
    tx_list_hash-injective toy (listed ∷ []) (listed ∷ []) (listed-IsListed, tt)
      (listed-IsListed, tt) refl

-- An encoding that is right for one record.
abbrev json : Json
json = record { to_vec = λ r. 1 ∷ []; from_slice = λ b. some dollar }

abbrev node : SequencerNode
node = record {
  block_size = 10;
  keypair = bank;
  state = ledger;
  mempool = queue;
  last_header = none;
}

recipientless : validate toy (pay none) ledger issuers ≡ ok tt
unfolding validate Mempool.signature_result Mempool.check_sender Mempool.check_authority
    Mempool.check_travel_rule next_nonce is_payment account account_of put_account canonical
    kind_byte push_array push_vec Crypto.verify bytes_eq to_le_bytes from_le_bytes Account.new
    set_balance pubkey nonce balance is_frozen clear_flag overwrite modify put get lookup insert
    Smt.new default_hashes defaults_from leaf_hash climb walk compute_path_to_leaf bit hash_bytes
    hash_concat hash_three
recipientless = refl

recipientless_transfer_fails_example :
    let (mempool, r) = ingress toy (pay none) ledger issuers queue in
    let (node', r') = produce_block toy native 5000 5001 (record node { mempool = mempool }) in
    (r ≡ ok tt)
    × (r' ≡ err NodeError.transfer_missing_recipient)
    × (node'.last_header ≡ none)
    × (node'.mempool.queue ≡ [])
recipientless_transfer_fails_example =
    recipientless_transfer_fails toy native issuers 5000 5001 (pay none) node recipientless refl
      refl refl (omega arith) (omega arith)

-- A payment waits in the queue.
abbrev pending : SequencerNode
pending = record node { mempool = record queue { queue = pay (some bob) ∷ [] } }

abbrev day : List NodeEvent
day = register dollar ∷ submit (pay (some bob)) ∷ tick 5000 5001 ∷ tick 6000 6001 ∷ []

abbrev settled : SequencerNode
settled = elim (run_node toy json native day node) [ ok n ↦ n | err e ↦ node ]

runs : run_node toy json native day node ≡ ok settled
unfolding run_node node_step ingress drain produce_block finish_block next_header run_txs run_tx
    assemble_witness witness_accounts put_accounts tx_list_hash tx_list_bytes combined_trace_hash
    concat_hashes sign_header full_hash signing_bytes Crypto.sign execute transfer cannot_pay debit
    credit set_nonce set_last_active lookup_issuer register_issuer issuer_key validate
    Mempool.signature_result Mempool.check_sender Mempool.check_authority Mempool.check_travel_rule
    next_nonce is_payment account account_of put_account canonical kind_byte push_array push_vec
    Crypto.verify bytes_eq to_le_bytes from_le_bytes Account.new set_balance pubkey nonce balance
    is_frozen clear_flag overwrite modify put get lookup insert Smt.new default_hashes defaults_from
    leaf_hash climb walk compute_path_to_leaf bit hash_bytes hash_concat hash_three
runs = refl

run_node-check_headers_example :
    (headers : List SignedHeader) × (check_headers toy ledger.accounts.root bank 0 none headers
      ≡ ok tt)
    × (last_of none headers ≡ settled.last_header)
run_node-check_headers_example =
    run_node-check_headers toy-Laws json native day node settled refl runs
