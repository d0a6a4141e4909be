-- ===== src/Wallet/Spending.antt =====
-- `SpendingTracker` of agent_wallet/src/policy.rs. The head of `spends` is the front of the queue.
pub mod Cap
pub mod Admission
use Prim.Native.Nat.{min}
use transformer_vm_bank.Base.{
  ℕ, ◌+◌, ◌-◌, ◌^◌, Bool, true, false, not, ◌&&◌, List, [], ◌∷◌, ◌++◌, Result, ok, err, is_ok,
  if◌then◌else◌, ltb, leb, ◌==◌,
}
use transformer_vm_bank.Bytes.{Bytes}
use transformer_vm_bank.Wallet.Errors.{WalletError}
use transformer_vm_bank.Wallet.Policy.{KeyPolicy, allows_contract, allows_counterparty}

abbrev pub u128_max : ℕ
u128_max = 2 ^ 128 - 1

pub record SpendingTracker : Type 0 where
  pub policy : KeyPolicy
  pub spends : List (ℕ × ℕ)

unfoldable pub new : KeyPolicy → SpendingTracker
new p = record { policy = p; spends = [] }

-- The loop of `evict_expired`: entries older than the cutoff leave at the front.
unfoldable pub drop_before : ℕ → List (ℕ × ℕ) → List (ℕ × ℕ)
drop_before cutoff [] = []
drop_before cutoff ((t, amount) ∷ spends) =
    if ltb t cutoff then drop_before cutoff spends else (t, amount) ∷ spends

unfoldable pub evict_expired : ℕ → SpendingTracker → SpendingTracker
evict_expired now s = record s { spends = drop_before (now - s.policy.window_secs) s.spends }

-- `total = total.saturating_add(amount)` over the entries.
unfoldable pub saturating_sum : ℕ → List (ℕ × ℕ) → ℕ
saturating_sum total [] = total
saturating_sum total ((t, amount) ∷ spends) = saturating_sum (min (total + amount) u128_max) spends

unfoldable pub current_window_total : ℕ → SpendingTracker → SpendingTracker × ℕ
current_window_total now s = let s' = evict_expired now s in (s', saturating_sum 0 s'.spends)

unfoldable pub try_spend : ℕ → ℕ → SpendingTracker → SpendingTracker × Result WalletError (Unit {0})
try_spend now amount s =
    if not (s.policy.expiry_unix == 0) && leb s.policy.expiry_unix now
    then (s, err (WalletError.policy_expired s.policy.expiry_unix now))
    else let (s', current) = current_window_total now s in
      if ltb u128_max (current + amount)
      then (s', err (WalletError.policy_overspend u128_max s.policy.cap_per_window))
      else if ltb s.policy.cap_per_window (current + amount)
      then (s', err (WalletError.policy_overspend (current + amount) s.policy.cap_per_window))
      else (record s' { spends = s'.spends ++ (now, amount) ∷ [] }, ok tt)

unfoldable pub admit :
    ℕ → Bytes → Bytes → ℕ → SpendingTracker → SpendingTracker × Result WalletError (Unit {0})
admit now contract counterparty amount s =
    if not (allows_contract s.policy contract)
    then (s, err (WalletError.policy_contract_disallowed contract))
    else if not (allows_counterparty s.policy counterparty)
    then (s, err (WalletError.policy_counterparty_disallowed counterparty))
    else try_spend now amount s

-- A call of `admit`.
pub record Call : Type 0 where
  pub now : ℕ
  pub contract : Bytes
  pub counterparty : Bytes
  pub amount : ℕ

-- A sequence of calls: the tracker after them, and the calls that were admitted, in order.
unfoldable pub admit_all : List Call → SpendingTracker → SpendingTracker × List Call
admit_all [] s = (s, [])
admit_all (x ∷ calls) s =
    let (s', r) = admit x.now x.contract x.counterparty x.amount s in
    let (s'', admitted) = admit_all calls s' in (s'', if is_ok r then x ∷ admitted else admitted)
