-- ===== src/Account/Tests.antt =====
-- An account at work, and the examples of the theorems on its fields.
use transformer_vm_bank.Base.{refl, arith, replicate}
use transformer_vm_bank.Bytes.{to_le_bytes}
use transformer_vm_bank.Bytes.Slice.{overwrite}
use transformer_vm_bank.Account.{Account, new, is_frozen, set_balance}
use transformer_vm_bank.Account.Flag.{IsAccount}

abbrev account : Account
account = set_balance 500 (new (replicate 32 9))

account-IsAccount : IsAccount account
unfolding set_balance new overwrite to_le_bytes is_frozen
account-IsAccount = record { bytes_len = refl; are_bytes = ground arith }
