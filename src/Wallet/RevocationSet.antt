-- ===== src/Wallet/RevocationSet.antt =====
-- `RevocationSet` of agent_wallet/src/revocation.rs: the set of revoked keys.
use transformer_vm_bank.Base.{
  ℕ, ◌≡◌, refl, [], arith, Result, ok, err, if◌then◌else◌, true, false, Bool, Bool-cases,
  Result-cases, inl, inr, Option, none, some, List, ◌∷◌,
}
use transformer_vm_bank.Bytes.{Bytes, bytes_eq, bytes_eq_iff}
use transformer_vm_bank.Dict.{Dict, lookup, insert, contains, lookup-insert}
use transformer_vm_bank.Crypto.{Crypto, Laws}
use transformer_vm_bank.Wallet.Errors.{WalletError}
use transformer_vm_bank.Wallet.Revocation.{Revocation, sign, verify, verify-sign}

-- The field `by_pubkey` of `RevocationSet`.
abbrev pub RevocationSet : Type 0
RevocationSet = Dict Revocation

module _ (c : Crypto) where
  -- `RevocationSet::insert`
  unfoldable pub insert_revocation :
      Revocation → RevocationSet → RevocationSet × Result WalletError Bool
  insert_revocation rev set = elim (verify c rev) [
    | err e ↦ (set, err e)
    | ok _ ↦
        if contains rev.revoked_pubkey set
        then (set, ok false)
        else (insert rev.revoked_pubkey rev set, ok true)
  ]

  unfoldable pub insert_all : List Revocation → RevocationSet → RevocationSet
  insert_all [] set = set
  insert_all (rev ∷ revs) set = insert_all revs (insert_revocation rev set).0

unfoldable pub is_revoked : RevocationSet → Bytes → Bool
is_revoked set pubkey = contains pubkey set

unfoldable pub check : RevocationSet → Bytes → Result WalletError (Unit {0})
check set pubkey = if is_revoked set pubkey then err (WalletError.key_revoked pubkey) else ok tt

insert_revocation-keeps :
    (c : Crypto) (rev r : Revocation) (set : RevocationSet) (k : Bytes)
    → lookup k set ≡ some r
    → lookup k (insert_revocation c rev set).0 ≡ some r
unfolding insert_revocation
insert_revocation-keeps c rev r set k e =
    ground (arith, lookup-insert rev.revoked_pubkey k rev set, bytes_eq_iff rev.revoked_pubkey k)

insert_all-keeps :
    (c : Crypto) (revs : List Revocation) (r : Revocation) (set : RevocationSet) (k : Bytes)
    → lookup k set ≡ some r
    → lookup k (insert_all c revs set) ≡ some r
unfolding insert_all
insert_all-keeps c [] r set k e = e
insert_all-keeps c (rev ∷ revs) r set k e =
    insert_all-keeps c revs r (insert_revocation c rev set).0 k
      (insert_revocation-keeps c rev r set k e)

new_revocation :
    (c : Crypto) (rev : Revocation) (set : RevocationSet)
    → verify c rev ≡ ok tt
    → lookup rev.revoked_pubkey set ≡ none
    → lookup rev.revoked_pubkey (insert_revocation c rev set).0 ≡ some rev
unfolding insert_revocation
new_revocation c rev set signed e = ground (
  arith,
  lookup-insert rev.revoked_pubkey rev.revoked_pubkey rev set,
  bytes_eq_iff rev.revoked_pubkey rev.revoked_pubkey,
)

-- Revocation is monotonic: once a signed revocation of a key has been offered, the key has a
-- revocation that no later one replaces, and after any further revocations `check` refuses the key.
pub revoked_forever :
    (c : Crypto) (rev : Revocation) (set : RevocationSet) (revs : List Revocation)
    → verify c rev ≡ ok tt
    → let set' = (insert_revocation c rev set).0 in
      (r : Revocation) × (lookup rev.revoked_pubkey set' ≡ some r)
      × (lookup rev.revoked_pubkey (insert_all c revs set') ≡ some r)
      × (check (insert_all c revs set') rev.revoked_pubkey
          ≡ err (WalletError.key_revoked rev.revoked_pubkey))
unfolding check is_revoked
revoked_forever c rev set revs signed =
    let k = rev.revoked_pubkey in
    let set' = (insert_revocation c rev set).0 in
    let (r, found) = landed (lookup k set) refl in
    let later = insert_all-keeps c revs r set' k found in (r, found, later, ground arith)
  where
    landed :
        (o : Option Revocation)
        → lookup rev.revoked_pubkey set ≡ o
        → (r : Revocation) × (lookup rev.revoked_pubkey (insert_revocation c rev set).0 ≡ some r)
    landed (some r) e = (r, insert_revocation-keeps c rev r set rev.revoked_pubkey e)
    landed none e = (rev, new_revocation c rev set signed e)

-- The set holds signed revocations only, each under the key that it revokes.
pub record IsEvidence (c : Crypto) (k : Bytes) (r : Revocation) : Type 0 where
  pub names : r.revoked_pubkey ≡ k
  pub signed : verify c r ≡ ok tt

insert_revocation-IsEvidence :
    (c : Crypto) (rev : Revocation) (set : RevocationSet)
    → ((k : Bytes) (r : Revocation) → lookup k set ≡ some r → IsEvidence c k r)
    → (k : Bytes) (r : Revocation) → lookup k (insert_revocation c rev set).0 ≡ some r
    → IsEvidence c k r
unfolding insert_revocation
insert_revocation-IsEvidence c rev set v k r e = elim (Result-cases (verify c rev)) [
  | inr (x, bad) ↦ v k r (ground arith)
  | inl (_, signed) ↦ elim (Bool-cases (contains rev.revoked_pubkey set)) [
    | inl old ↦ v k r (ground arith)
    | inr new ↦ elim (Bool-cases (bytes_eq rev.revoked_pubkey k)) [
      | inr other ↦ v k r (ground (arith, lookup-insert rev.revoked_pubkey k rev set))
      | inl same ↦
          let mine : rev ≡ r = ground (arith, lookup-insert rev.revoked_pubkey k rev set) in
          rw (← mine)
            (record { names = (bytes_eq_iff rev.revoked_pubkey k).0 same; signed = ground arith })
    ]
  ]
]

insert_all-from :
    (c : Crypto) (revs : List Revocation) (set : RevocationSet)
    → ((k : Bytes) (r : Revocation) → lookup k set ≡ some r → IsEvidence c k r)
    → (k : Bytes) (r : Revocation) → lookup k (insert_all c revs set) ≡ some r
    → IsEvidence c k r
unfolding insert_all
insert_all-from c [] set v k r e = v k r e
insert_all-from c (rev ∷ revs) set v k r e =
    insert_all-from c revs (insert_revocation c rev set).0
      (insert_revocation-IsEvidence c rev set v) k r e

-- A key is revoked only by a revocation of that key whose signature verifies: this holds of every set
-- built from the empty one.
pub insert_all-IsEvidence :
    (c : Crypto) (revs : List Revocation) (k : Bytes) (r : Revocation)
    → lookup k (insert_all c revs []) ≡ some r
    → IsEvidence c k r
unfolding lookup
insert_all-IsEvidence c revs k r e = insert_all-from c revs [] (λ k r e. cc) k r e

-- The signature that `insert` checks is that of the key which the revocation itself names as the
-- parent: with any signing key at all, any key that is not revoked yet can be revoked.
pub anyone_revokes :
    {c : Crypto}
    → Laws c
    → (signer victim reason : Bytes) (now : ℕ) (set : RevocationSet) → check set victim ≡ ok tt
    → let rev = sign c signer victim reason now in
      ((insert_revocation c rev set).1 ≡ ok true)
      × (check (insert_revocation c rev set).0 victim ≡ err (WalletError.key_revoked victim))
unfolding insert_revocation check is_revoked
anyone_revokes {c} l signer victim reason now set free =
    let rev = sign c signer victim reason now in
    let named : rev.revoked_pubkey ≡ victim = unfold sign in refl in
    let signed = verify-sign l signer victim reason now in
    (ground arith, ground (arith, lookup-insert victim victim rev set, bytes_eq_iff victim victim))
