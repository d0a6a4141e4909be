-- ===== src/Sequencer/Trace.antt =====
-- sequencer/src/trace.rs: `NativeTraceExecutor`, which computes the accounts that a transaction
-- leaves. Additions on u64 and u128 wrap, as they do in the release profile.
pub mod Transfers
use transformer_vm_bank.Base.{
  ℕ, zero, suc, ◌+◌, ◌-◌, ◌*◌, ◌%◌, ◌^◌, Bool, true, false, not, ◌&&◌, ◌||◌, List, [], ◌∷◌, Result,
  ok, err, length, replicate, ltb, ◌==◌, if◌then◌else◌,
}
use transformer_vm_bank.Bytes.{Bytes, from_le_bytes}
use transformer_vm_bank.Account.{
  Account, default, balance, set_balance, nonce, set_nonce, set_last_active, is_frozen, set_frozen,
}
use transformer_vm_bank.Sequencer.Tx.{TxKind, SignedTx}

pub data NodeError : Type 0 where
  freeze_needs_1_account : NodeError
  transfer_needs_2_accounts : NodeError
  mint_needs_1_account : NodeError
  burn_needs_1_account : NodeError
  multi_asset_needs_even_accounts : NodeError
  transfer_missing_recipient : NodeError
  multi_asset_witness_todo : NodeError
  -- An error of another executor.
  executor_failed : NodeError

pub record TraceResult : Type 0 where
  pub updated_accounts : List Account
  pub trace_hash : Bytes
  pub success : Bool

pub record Witness : Type 0 where
  pub epoch : ℕ
  pub accounts : List Account
  pub amount : Bytes
  pub flag : ℕ

abbrev pub native_trace_marker : Bytes
native_trace_marker = replicate 32 0xca

-- `TraceResult` with the marker.
abbrev pub traced : List Account → Bool → Result NodeError TraceResult
traced accounts success =
    ok (record { updated_accounts = accounts; trace_hash = native_trace_marker; success = success })

unfoldable pub freeze : Witness → Result NodeError TraceResult
freeze w = elim w.accounts [
  | a ∷ [] ↦ traced (set_frozen (not (w.flag == 0)) a ∷ []) true
  | _ ↦ err NodeError.freeze_needs_1_account
]

-- `from.is_frozen() || from.balance() < amount`
unfoldable pub cannot_pay : ℕ → Account → Bool
cannot_pay amount from = is_frozen from || ltb (balance from) amount

-- The five assignments of a transfer.
unfoldable pub debit : ℕ → ℕ → Account → Account
debit epoch amount from =
    let from' = set_balance (balance from - amount) from in
    set_last_active epoch (set_nonce ((nonce from' + 1) % 2 ^ 64) from')

unfoldable pub credit : ℕ → ℕ → Account → Account
credit epoch amount to = set_last_active epoch (set_balance ((balance to + amount) % 2 ^ 128) to)

unfoldable pub transfer : Witness → Result NodeError TraceResult
transfer w = elim w.accounts [
  | from ∷ to ∷ [] ↦
      let amount = from_le_bytes w.amount in
      if cannot_pay amount from
      then traced (default ∷ default ∷ []) false
      else traced (debit w.epoch amount from ∷ credit w.epoch amount to ∷ []) true
  | _ ↦ err NodeError.transfer_needs_2_accounts
]

unfoldable pub mint : Witness → Result NodeError TraceResult
mint w = elim w.accounts [
  | to ∷ [] ↦
      let b = balance to + from_le_bytes w.amount in
      if ltb (2 ^ 128 - 1) b
      then traced (default ∷ []) false
      else traced (set_last_active w.epoch (set_balance b to) ∷ []) true
  | _ ↦ err NodeError.mint_needs_1_account
]

unfoldable pub burn : Witness → Result NodeError TraceResult
burn w = elim w.accounts [
  | from ∷ [] ↦
      let amount = from_le_bytes w.amount in
      if ltb (balance from) amount
      then traced (default ∷ []) false
      else traced (set_last_active w.epoch (set_balance (balance from - amount) from) ∷ []) true
  | _ ↦ err NodeError.burn_needs_1_account
]

-- The loop over the pairs: the accounts pushed, and `all_success`.
unfoldable pub transfer_pairs : ℕ → ℕ → List Account → List Account × Bool
transfer_pairs epoch amount (from ∷ to ∷ accounts) =
    let (updated, all_success) = transfer_pairs epoch amount accounts in
    if cannot_pay amount from
    then (default ∷ default ∷ updated, false)
    else (debit epoch amount from ∷ credit epoch amount to ∷ updated, all_success)
transfer_pairs epoch amount _ = ([], true)

unfoldable pub multi_asset : Witness → Result NodeError TraceResult
multi_asset w =
    if not (length w.accounts % 2 == 0) || (length w.accounts == 0)
    then err NodeError.multi_asset_needs_even_accounts
    else let (updated, all_success) = transfer_pairs w.epoch (from_le_bytes w.amount) w.accounts in
      traced updated all_success

unfoldable pub execute : TxKind → Witness → Result NodeError TraceResult
execute TxKind.freeze w = freeze w
execute TxKind.transfer w = transfer w
execute TxKind.mint w = mint w
execute TxKind.burn w = burn w
execute TxKind.multi_asset w = multi_asset w

unfoldable pub expected_trace_hash_count : TxKind → ℕ → ℕ
expected_trace_hash_count TxKind.freeze multi_n = 2
expected_trace_hash_count TxKind.transfer multi_n = 34
expected_trace_hash_count TxKind.mint multi_n = 16
expected_trace_hash_count TxKind.burn multi_n = 17
expected_trace_hash_count TxKind.multi_asset multi_n = multi_n * 34
