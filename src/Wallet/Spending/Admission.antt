-- ===== src/Wallet/Spending/Admission.antt =====
-- When a call is admitted.
use transformer_vm_bank.Base.{ℕ, ◌+◌, ◌-◌, ◌≤◌, ◌<◌, ◌≡◌, ◌⊎◌, true, err, arith}
use transformer_vm_bank.Bytes.{Bytes}
use transformer_vm_bank.Wallet.Errors.{WalletError}
use transformer_vm_bank.Wallet.Policy.{allows_contract, allows_counterparty}
use transformer_vm_bank.Wallet.Spending.{
  SpendingTracker, drop_before, evict_expired, current_window_total, try_spend, admit,
}
use transformer_vm_bank.Wallet.Spending.Cap.{sum}

-- What a spend has to be to be admitted, `left` being the entries that the eviction leaves.
pub record CanSpend (now : ℕ) (contract counterparty : Bytes) (amount : ℕ) (s : SpendingTracker)
    : Type 0 where
  pub contract_allowed : allows_contract s.policy contract ≡ true
  pub counterparty_allowed : allows_counterparty s.policy counterparty ≡ true
  pub unexpired : (s.policy.expiry_unix ≡ 0) ⊎ (now < s.policy.expiry_unix)
  pub fits :
      sum (drop_before (now - s.policy.window_secs) s.spends) + amount ≤ s.policy.cap_per_window

-- A refused call adds no entry: it leaves the tracker, or the tracker after the eviction.
pub admit-err :
    (now : ℕ) (contract counterparty : Bytes) (amount : ℕ) (s : SpendingTracker) (e : WalletError)
    → (admit now contract counterparty amount s).1 ≡ err e
    → ((admit now contract counterparty amount s).0 ≡ s)
      ⊎ ((admit now contract counterparty amount s).0 ≡ evict_expired now s)
unfolding admit try_spend current_window_total
admit-err now contract counterparty amount s e h = ground arith
