-- ===== src/Sequencer/Tests.antt =====
-- A small ledger, and the examples of the theorems on the sequencer.
mod Blocks
use transformer_vm_bank.Base.{
  ℕ, ◌+◌, ◌^◌, ◌<◌, ◌≤◌, ◌≡◌, refl, ◌⊎◌, true, false, ◌||◌, Option, none, some, [], ◌∷◌, ◌++◌, ok,
  err, arith, replicate, length, if◌then◌else◌, ◌==◌,
}
use transformer_vm_bank.Bytes.{Bytes, bytes_eq, to_le_bytes, from_le_bytes}
use transformer_vm_bank.Bytes.Slice.{overwrite, modify}
use transformer_vm_bank.Dict.{lookup, insert}
use transformer_vm_bank.Crypto
use transformer_vm_bank.Crypto.Toy.{toy}
use transformer_vm_bank.Account
use transformer_vm_bank.Account.{
  Account, pubkey, balance, is_frozen, nonce, set_balance, clear_flag,
}
use transformer_vm_bank.Account.Flag.{IsAccount}
use transformer_vm_bank.Smt
use transformer_vm_bank.Smt.{put, get}
use transformer_vm_bank.Sequencer.Tx.{TxKind, SignedTx, canonical}
use transformer_vm_bank.Sequencer.Registry.{IssuerRecord}
use transformer_vm_bank.Sequencer.State.{State, account, account_of, put_account}
use transformer_vm_bank.Sequencer.Mempool
use transformer_vm_bank.Sequencer.Mempool.{Mempool, TxError, validate, ingress}
use transformer_vm_bank.Sequencer.Mempool.Queue.{ingress-outcome, ingress_twice}
use transformer_vm_bank.Sequencer.Trace.{traced, native_trace_marker, transfer}
use transformer_vm_bank.Sequencer.Trace.Transfers.{
  Debited, Credited, payment, transfer_overflow_freezes,
}
use transformer_vm_bank.Sequencer.Node.{native, run_tx}
use transformer_vm_bank.Sequencer.Node.Settlement.{IsPayment, run_tx-settles, run_tx_to_oneself}

abbrev alice : Bytes
alice = replicate 32 1

abbrev pub bob : Bytes
bob = replicate 32 2

abbrev pub bank : Bytes
bank = replicate 32 3

abbrev pub dollar : IssuerRecord
dollar = record {
  asset_id = 1;
  authority_pubkey = bank;
  max_supply = replicate 16 0;
  mint_enabled = true;
  burn_enabled = true;
  freeze_enabled = true;
  travel_rule_threshold = to_le_bytes 16 1000;
  regulator_view_keys = [];
  name = [];
}

abbrev pub issuers : ℕ → Option IssuerRecord
issuers n = if n == 1 then some dollar else none

-- Alice has 100 dollars.
abbrev pub ledger : State
ledger =
    put_account toy (set_balance 100 (Account.new alice))
      (record { accounts = Smt.new toy; registry = Smt.new toy })

abbrev pub unsigned_payment : Option Bytes → SignedTx
unsigned_payment to = record {
  kind = TxKind.transfer;
  asset_id = 1;
  nonce = 1;
  signer = alice;
  recipient = to;
  amount = to_le_bytes 16 30;
  flag = 0;
  court_order_hash = none;
  multi_payload = none;
  originator_metadata = none;
  signature = [];
}

abbrev pub pay : Option Bytes → SignedTx
pay to = record (unsigned_payment to) { signature = alice ++ canonical (unsigned_payment to) }

abbrev pub queue : Mempool
queue = record { queue = []; capacity = 2 }

ingress-outcome_example :
    ((length (queue.queue) < queue.capacity)
      × (validate toy (pay (some bob)) ledger issuers ≡ ok tt)
      × (ingress toy (pay (some bob)) ledger issuers queue
          ≡ (record queue { queue = queue.queue ++ pay (some bob) ∷ [] }, ok tt)))
    ⊎ ((e : TxError) × ((queue.capacity ≤ length (queue.queue))
          ⊎ (validate toy (pay (some bob)) ledger issuers ≡ err e))
        × (ingress toy (pay (some bob)) ledger issuers queue ≡ (queue, err e)))
ingress-outcome_example = ingress-outcome toy issuers (pay (some bob)) ledger queue

pays-bob : IsPayment 5 (pay (some bob)) bob ledger
unfolding account account_of put_account from_le_bytes to_le_bytes bytes_eq Account.new set_balance
    pubkey balance is_frozen clear_flag overwrite modify put get lookup insert Smt.new
pays-bob = record {
  kind = refl;
  recipient = refl;
  sender_account = record { bytes_len = refl; are_bytes = ground arith };
  sender_key = refl;
  receiver_account = record { bytes_len = refl; are_bytes = ground arith };
  receiver_key = refl;
  epoch_u64 = omega arith;
  free = refl;
  enough = omega arith;
  fits = omega arith;
}

run_tx-settles_example :
    (s' : State) × (run_tx toy native 5 (pay (some bob)) ledger ≡ ok (s', native_trace_marker))
    × Debited 5 (from_le_bytes (pay (some bob)).amount) (account ledger alice) (account s' alice)
    × Credited 5 (from_le_bytes (pay (some bob)).amount) (account ledger bob) (account s' bob)
    × ((pk : Bytes)
        → (bytes_eq alice pk || bytes_eq bob pk) ≡ false
        → account s' pk ≡ account ledger pk)
    × (balance (account s' alice) + balance (account s' bob)
        ≡ balance (account ledger alice) + balance (account ledger bob))
run_tx-settles_example =
    run_tx-settles toy 5 (pay (some bob)) bob ledger pays-bob (λ e. ground arith)

pays-alice : IsPayment 5 (pay (some alice)) alice ledger
unfolding account account_of put_account from_le_bytes to_le_bytes bytes_eq Account.new set_balance
    pubkey balance is_frozen clear_flag overwrite modify put get lookup insert Smt.new
pays-alice = record {
  kind = refl;
  recipient = refl;
  sender_account = record { bytes_len = refl; are_bytes = ground arith };
  sender_key = refl;
  receiver_account = record { bytes_len = refl; are_bytes = ground arith };
  receiver_key = refl;
  epoch_u64 = omega arith;
  free = refl;
  enough = omega arith;
  fits = omega arith;
}

run_tx_to_oneself_example :
    (s' : State) × (run_tx toy native 5 (pay (some alice)) ledger ≡ ok (s', native_trace_marker))
    × (balance (account s' alice)
        ≡ balance (account ledger alice) + from_le_bytes (pay (some alice)).amount)
    × (nonce (account s' alice) ≡ nonce (account ledger alice))
run_tx_to_oneself_example = run_tx_to_oneself toy 5 (pay (some alice)) ledger pays-alice

-- Two accounts that together have 2 ^ 127.
abbrev rich : Account
rich = set_balance (2 ^ 126) (Account.new alice)

abbrev richer : Account
richer = set_balance (2 ^ 126) (Account.new bob)

richer-IsAccount : IsAccount richer
unfolding set_balance Account.new overwrite to_le_bytes is_frozen
richer-IsAccount = record { bytes_len = refl; are_bytes = ground arith }

rich-free : is_frozen rich ≡ false
unfolding set_balance Account.new overwrite to_le_bytes is_frozen
rich-free = refl

rich-enough : from_le_bytes (to_le_bytes 16 (2 ^ 126)) ≤ balance rich
unfolding set_balance Account.new overwrite to_le_bytes from_le_bytes is_frozen balance modify
    clear_flag
rich-enough = omega arith

richer-full : 2 ^ 127 ≤ balance richer + from_le_bytes (to_le_bytes 16 (2 ^ 126))
unfolding set_balance Account.new overwrite to_le_bytes from_le_bytes is_frozen balance modify
    clear_flag
richer-full = omega arith

amount-fits : from_le_bytes (to_le_bytes 16 (2 ^ 126)) < 2 ^ 127
unfolding to_le_bytes from_le_bytes
amount-fits = omega arith

transfer_overflow_freezes_example :
    (from' to' : Account) × (transfer (payment 5 (to_le_bytes 16 (2 ^ 126)) rich richer)
      ≡ traced (from' ∷ to' ∷ []) true)
    × (is_frozen to' ≡ true)
    × (balance to' + 2 ^ 127 ≡ balance richer + from_le_bytes (to_le_bytes 16 (2 ^ 126)))
transfer_overflow_freezes_example =
    transfer_overflow_freezes 5 (to_le_bytes 16 (2 ^ 126)) rich richer richer-IsAccount
      (omega arith) amount-fits rich-free rich-enough richer-full
