-- ===== src/Sequencer/State/Accounts.antt =====
-- Reading an account back from the state.
use transformer_vm_bank.Base.{
  ◌≡◌, ◌≢◌, refl, Bool-cases, inl, inr, Option, none, some, [], ◌∷◌, arith, is_empty, if◌then◌else◌,
}
use transformer_vm_bank.Bytes.{Bytes, bytes_eq}
use transformer_vm_bank.Dict.{lookup-insert, lookup-remove}
use transformer_vm_bank.Crypto.{Crypto}
use transformer_vm_bank.Account.{Account, pubkey}
use transformer_vm_bank.Account.Flag.{IsAccount}
use transformer_vm_bank.Smt.{SparseMerkleTree, get, put}
use transformer_vm_bank.Sequencer.State.{State, account_of, account, put_account}

abbrev pub stored : Bytes → Option Bytes
stored value = if is_empty value then none else some value

pub stored-nonempty : (value : Bytes) → value ≢ [] → stored value ≡ some value
stored-nonempty [] h = absurd (h refl)
stored-nonempty (b ∷ value) h = refl

pub get-put :
    (c : Crypto) (k j value : Bytes) (t : SparseMerkleTree)
    → get (put c k value t) j ≡ (if bytes_eq k j then stored value else get t j)
unfolding get put
get-put c k j value t = ground (arith, lookup-insert k j value t.leaves, lookup-remove k j t.leaves)

account_of-some : (pk : Bytes) (a : Account) → IsAccount a → account_of pk (stored a.bytes) ≡ a
unfolding account_of
account_of-some pk a v = ground (arith, v.bytes_len)

pub account-put_account :
    (c : Crypto) (a : Account) (pk : Bytes) (s : State)
    → IsAccount a
    → account (put_account c a s) pk ≡ (if bytes_eq (pubkey a) pk then a else account s pk)
unfolding account put_account
account-put_account c a pk s v = elim (Bool-cases (bytes_eq (pubkey a) pk)) [
  | inl same ↦ rw (get-put c (pubkey a) pk a.bytes s.accounts, same) (account_of-some pk a v)
  | inr other ↦ rw (get-put c (pubkey a) pk a.bytes s.accounts, other) refl
]
