-- ===== src/Sequencer/Node/Settlement.antt =====
-- What the transactions of a block do to the accounts, with the native executor.
use transformer_vm_bank.Base.{
  ℕ, ◌+◌, ◌^◌, ◌<◌, ◌≤◌, ◌≡◌, refl, ◌≢◌, ◌∙◌, false, ◌||◌, some, ok, arith, if◌then◌else◌,
}
use transformer_vm_bank.Bytes.{Bytes, bytes_eq, bytes_eq_iff, from_le_bytes}
use transformer_vm_bank.Crypto.{Crypto}
use transformer_vm_bank.Account.{pubkey, balance, is_frozen, nonce}
use transformer_vm_bank.Account.Flag.{IsAccount}
use transformer_vm_bank.Sequencer.Tx.{TxKind, SignedTx}
use transformer_vm_bank.Sequencer.State.{State, account, put_account}
use transformer_vm_bank.Sequencer.State.Accounts.{account-put_account}
use transformer_vm_bank.Sequencer.Trace.{
  execute, transfer, debit, credit, cannot_pay, native_trace_marker,
}
use transformer_vm_bank.Sequencer.Trace.Transfers.{
  Debited, Credited, debit-Debited, credit-Credited, debit-IsAccount, credit-IsAccount,
}
use transformer_vm_bank.Sequencer.Node.{
  native, witness_accounts, assemble_witness, put_accounts, run_tx,
}

-- A transfer between two keys that the accounts can carry out.
pub record IsPayment (epoch : ℕ) (tx : SignedTx) (to : Bytes) (s : State) : Type 0 where
  pub kind : tx.kind ≡ TxKind.transfer
  pub recipient : tx.recipient ≡ some to
  pub sender_account : IsAccount (account s tx.signer)
  pub sender_key : pubkey (account s tx.signer) ≡ tx.signer
  pub receiver_account : IsAccount (account s to)
  pub receiver_key : pubkey (account s to) ≡ to
  pub epoch_u64 : epoch < 2 ^ 64
  pub free : is_frozen (account s tx.signer) ≡ false
  pub enough : from_le_bytes tx.amount ≤ balance (account s tx.signer)
  pub fits : balance (account s to) + from_le_bytes tx.amount < 2 ^ 127

module _ (c : Crypto) (epoch : ℕ) (tx : SignedTx) (to : Bytes) (s : State) where
  -- The state after such a transfer: the sender is put first, then the receiver.
  abbrev paid : State
  paid =
      put_account c (credit epoch (from_le_bytes tx.amount) (account s to))
        (put_account c (debit epoch (from_le_bytes tx.amount) (account s tx.signer)) s)

  run_tx-paid :
      IsPayment epoch tx to s → run_tx c native epoch tx s ≡ ok (paid, native_trace_marker)
  unfolding run_tx assemble_witness witness_accounts execute transfer cannot_pay put_accounts
  run_tx-paid p = ground (arith, p.kind, p.recipient, p.free, p.enough)

  account-paid :
      IsPayment epoch tx to s
      → (pk : Bytes)
      → account paid pk ≡ (
          if bytes_eq to pk
          then credit epoch (from_le_bytes tx.amount) (account s to)
          else if bytes_eq tx.signer pk
          then debit epoch (from_le_bytes tx.amount) (account s tx.signer)
          else account s pk)
  account-paid p pk =
      let n = from_le_bytes tx.amount in
      let d = debit-Debited epoch n (account s tx.signer) p.sender_account p.epoch_u64 in
      let r = credit-Credited epoch n (account s to) p.receiver_account p.epoch_u64 p.fits in
      let first =
        account-put_account c (debit epoch n (account s tx.signer)) pk s
          (debit-IsAccount epoch n (account s tx.signer) p.sender_account) in
      let second =
        account-put_account c (credit epoch n (account s to)) pk
          (put_account c (debit epoch n (account s tx.signer)) s)
          (credit-IsAccount epoch n (account s to) p.receiver_account) in
      rw (second, first, r.same_pubkey, p.receiver_key, d.same_pubkey, p.sender_key) refl

-- A transfer between two different keys that the accounts can carry out (`IsPayment`: the sender is not
-- frozen and has the amount, and the receiver stays below 2 ^ 127), run by the node: the sender pays
-- the amount and counts a nonce, the receiver gets it, no other account changes, and the two balances
-- keep their sum.
pub run_tx-settles :
    (c : Crypto) (epoch : ℕ) (tx : SignedTx) (to : Bytes) (s : State)
    → IsPayment epoch tx to s
    → tx.signer ≢ to
    → (s' : State) × (run_tx c native epoch tx s ≡ ok (s', native_trace_marker))
      × Debited epoch (from_le_bytes tx.amount) (account s tx.signer) (account s' tx.signer)
      × Credited epoch (from_le_bytes tx.amount) (account s to) (account s' to)
      × ((pk : Bytes)
          → (bytes_eq tx.signer pk || bytes_eq to pk) ≡ false
          → account s' pk ≡ account s pk)
      × (balance (account s' tx.signer) + balance (account s' to)
          ≡ balance (account s tx.signer) + balance (account s to))
run_tx-settles c epoch tx to s p apart =
    let n = from_le_bytes tx.amount in
    let d = debit-Debited epoch n (account s tx.signer) p.sender_account p.epoch_u64 in
    let r = credit-Credited epoch n (account s to) p.receiver_account p.epoch_u64 p.fits in
    let reads = account-paid c epoch tx to s p in
    let sender : account (paid c epoch tx to s) tx.signer ≡ debit epoch n (account s tx.signer) =
      reads tx.signer
      ∙ ground (arith, bytes_eq_iff to tx.signer, bytes_eq_iff tx.signer tx.signer) in
    let receiver : account (paid c epoch tx to s) to ≡ credit epoch n (account s to) =
      reads to ∙ ground (arith, bytes_eq_iff to to) in
    (
      paid c epoch tx to s,
      run_tx-paid c epoch tx to s p,
      rw sender d,
      rw receiver r,
      λ pk other. reads pk ∙ ground arith,
      rw (sender, receiver) (omega (arith, d.paid, r.received)),
    )

-- A transfer to oneself that the account can carry out (`IsPayment`), run by the node: the account is
-- credited but neither debited nor given the next nonce, since the receiver's record is put last; so
-- the balance grows by the amount.
pub run_tx_to_oneself :
    (c : Crypto) (epoch : ℕ) (tx : SignedTx) (s : State)
    → IsPayment epoch tx tx.signer s
    → (s' : State) × (run_tx c native epoch tx s ≡ ok (s', native_trace_marker))
      × (balance (account s' tx.signer) ≡ balance (account s tx.signer) + from_le_bytes tx.amount)
      × (nonce (account s' tx.signer) ≡ nonce (account s tx.signer))
run_tx_to_oneself c epoch tx s p =
    let n = from_le_bytes tx.amount in
    let r = credit-Credited epoch n (account s tx.signer) p.receiver_account p.epoch_u64 p.fits in
    let only : account (paid c epoch tx tx.signer s) tx.signer
        ≡ credit epoch n (account s tx.signer) =
      account-paid c epoch tx tx.signer s p tx.signer
      ∙ ground (arith, bytes_eq_iff tx.signer tx.signer) in
    (
      paid c epoch tx tx.signer s,
      run_tx-paid c epoch tx tx.signer s p,
      rw only r.received,
      rw only r.same_nonce,
    )
