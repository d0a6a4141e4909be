-- ===== src/Sequencer/State.antt =====
-- sequencer/src/state.rs: the accounts and the issuer records, each in a sparse Merkle tree.
pub mod Accounts
use transformer_vm_bank.Base.{ℕ, Option, none, some, length, ◌==◌, if◌then◌else◌}
use transformer_vm_bank.Bytes.{Bytes}
use transformer_vm_bank.Crypto.{Crypto}
use transformer_vm_bank.Account
use transformer_vm_bank.Account.{Account, pubkey}
use transformer_vm_bank.Smt
use transformer_vm_bank.Smt.{SparseMerkleTree, get, put}

pub record State : Type 0 where
  pub accounts : SparseMerkleTree
  pub registry : SparseMerkleTree

unfoldable pub new : Crypto → State
new c = record { accounts = Smt.new c; registry = Smt.new c }

-- A stored value of 64 bytes, and a fresh account of the key otherwise.
unfoldable pub account_of : Bytes → Option Bytes → Account
account_of pk (some bytes) = if length bytes == 64 then record { bytes = bytes } else Account.new pk
account_of pk none = Account.new pk

unfoldable pub account : State → Bytes → Account
account s pk = account_of pk (get s.accounts pk)

unfoldable pub put_account : Crypto → Account → State → State
put_account c a s = record s { accounts = put c (pubkey a) a.bytes s.accounts }
