-- ===== src/Wallet/Tests.antt =====
-- Runs of the wallet on a small policy, and the examples of its theorems.
use transformer_vm_bank.Base.{
  ℕ, ◌≡◌, refl, ◌≤◌, true, some, List, [], ◌∷◌, ok, err, arith, replicate,
}
use transformer_vm_bank.Bytes.{Bytes, bytes_eq, as_bytes, to_be_bytes}
use transformer_vm_bank.Dict.{lookup, insert}
use transformer_vm_bank.Crypto.Toy.{toy, toy-Laws}
use transformer_vm_bank.Wallet.Errors.{WalletError}
use transformer_vm_bank.Wallet.Policy.{KeyPolicy, allows_contract, allows_counterparty}
use transformer_vm_bank.Wallet.Spending.{
  SpendingTracker, new, drop_before, evict_expired, saturating_sum, current_window_total, try_spend,
  admit, Call, admit_all,
}
use transformer_vm_bank.Wallet.Spending.Cap.{spent_in_window, window_cap}
use transformer_vm_bank.Wallet.Revocation
use transformer_vm_bank.Wallet.Revocation.{Revocation, verify-sign}
use transformer_vm_bank.Wallet.RevocationSet.{
  insert_revocation, insert_all, is_revoked, check, revoked_forever, anyone_revokes,
}

abbrev parent : Bytes
parent = replicate 32 1

abbrev child : Bytes
child = replicate 32 2

abbrev shop : Bytes
shop = replicate 32 3

abbrev stranger : Bytes
stranger = replicate 32 4

abbrev policy : KeyPolicy
policy = record {
  child_pubkey = child;
  parent_pubkey = parent;
  cap_per_window = 100;
  window_secs = 60;
  allowed_contracts = as_bytes "swap" ∷ [];
  allowed_counterparties = shop ∷ [];
  expiry_unix = 5000;
  version = 1;
}

abbrev spend : ℕ → ℕ → Call
spend now amount = record {
  now = now;
  contract = as_bytes "swap";
  counterparty = shop;
  amount = amount;
}

abbrev spends : List Call
spends = spend 1000 70 ∷ spend 1010 40 ∷ spend 1020 30 ∷ spend 1061 40 ∷ []

run-spends : (admit_all spends (new policy)).1 ≡ spend 1000 70 ∷ spend 1020 30 ∷ spend 1061 40 ∷ []
unfolding admit_all admit try_spend current_window_total evict_expired drop_before saturating_sum
    new allows_contract allows_counterparty bytes_eq
run-spends = refl

window_cap_example : spent_in_window 60 1061 (admit_all spends (new policy)).1 ≤ 100
window_cap_example =
    window_cap policy spends 1061 (omega arith)
      (omega arith, (omega arith, (omega arith, (omega arith, tt))))

abbrev tracker : SpendingTracker
tracker = record { policy = policy; spends = (1000, 70) ∷ [] }

-- The parent revokes the child; a stranger then revokes the parent.
abbrev revocation : Revocation
revocation = Revocation.sign toy parent child (replicate 32 0) 1000

abbrev hostile : Revocation
hostile = Revocation.sign toy stranger parent (replicate 32 0) 1000

revoked_forever_example :
    let set' = (insert_revocation toy revocation []).0 in
    (r : Revocation) × (lookup revocation.revoked_pubkey set' ≡ some r)
    × (lookup revocation.revoked_pubkey (insert_all toy (hostile ∷ []) set') ≡ some r)
    × (check (insert_all toy (hostile ∷ []) set') revocation.revoked_pubkey
        ≡ err (WalletError.key_revoked revocation.revoked_pubkey))
revoked_forever_example =
    revoked_forever toy revocation [] (hostile ∷ [])
      (verify-sign toy-Laws parent child (replicate 32 0) 1000)

child_revoked : lookup child (insert_all toy (revocation ∷ []) []) ≡ some revocation
unfolding insert_all insert_revocation insert lookup Revocation.sign Revocation.verify
    Revocation.canonical_bytes bytes_eq to_be_bytes
child_revoked = refl

parent_trusted : check [] parent ≡ ok tt
unfolding check is_revoked lookup
parent_trusted = refl

anyone_revokes_example :
    ((insert_revocation toy hostile []).1 ≡ ok true)
    × (check (insert_revocation toy hostile []).0 parent ≡ err (WalletError.key_revoked parent))
anyone_revokes_example =
    anyone_revokes toy-Laws stranger parent (replicate 32 0) 1000 [] parent_trusted
