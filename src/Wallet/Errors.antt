-- ===== src/Wallet/Errors.antt =====
-- agent_wallet/src/error.rs. The text of an `ed25519` error is what the code puts before the
-- library's own message.
use Prim.Native.String.{String}
use transformer_vm_bank.Base.{ℕ}
use transformer_vm_bank.Bytes.{Bytes}

pub data WalletError : Type 0 where
  bad_seed_length : ℕ → WalletError
  not_hardened : ℕ → WalletError
  invalid_private_key : WalletError
  signature_invalid : WalletError
  policy_signature_invalid : WalletError
  policy_expired : ℕ → ℕ → WalletError
  policy_overspend : ℕ → ℕ → WalletError
  policy_contract_disallowed : Bytes → WalletError
  policy_counterparty_disallowed : Bytes → WalletError
  key_revoked : Bytes → WalletError
  ed25519 : String → WalletError
