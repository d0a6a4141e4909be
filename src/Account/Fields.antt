-- ===== src/Account/Fields.antt =====
-- What each setter does to each field.
use transformer_vm_bank.Base.{
  ℕ, ◌+◌, ◌%◌, ◌^◌, ◌≤◌, ◌<◌, ◌≡◌, refl, ◌∙◌, ap, Bool, true, false, ◌||◌, arith, leb,
  if◌then◌else◌, Bool-cases, inl, inr,
}
use transformer_vm_bank.Bytes.{from_le_bytes, to_le_bytes}
use transformer_vm_bank.Bytes.Encode.{
  from_le_bytes-to_le_bytes, length-to_le_bytes, to_le_bytes-AreBytes,
}
use transformer_vm_bank.Bytes.Slice.{
  slice, overwrite, slice-overwrite_self, slice-overwrite_before, slice-overwrite_after,
  slice-modify_before, slice-modify_after, slice-modify_within, length-overwrite, length-modify,
  overwrite-AreBytes, modify-AreBytes,
}
use transformer_vm_bank.Account.{
  Account, clear_flag, raise_flag, pubkey, balance, is_frozen, set_frozen, set_balance, nonce,
  set_nonce, last_active, set_last_active,
}
use transformer_vm_bank.Account.Flag.{
  IsAccount, raw, cleared, raised, slice_bytes, slice_len, balance-raw, is_frozen-raw,
  clear_flag_lem, raise_flag_lem,
}

-- The record with `n` bytes of `value` written at `off`.
abbrev write : ℕ → ℕ → ℕ → Account → Account
write off n value a = record { bytes = overwrite off (to_le_bytes n value) a.bytes }

write-IsAccount : (off n value : ℕ) (a : Account) → IsAccount a → IsAccount (write off n value a)
write-IsAccount off n value a v = record {
  bytes_len = omega (arith, length-overwrite off (to_le_bytes n value) a.bytes, v.bytes_len);
  are_bytes =
      overwrite-AreBytes off (to_le_bytes n value) a.bytes (to_le_bytes-AreBytes n value)
        v.are_bytes;
}

read_written :
    (off n value : ℕ) (a : Account)
    → IsAccount a
    → off + n ≤ 64
    → value < 256 ^ n
    → from_le_bytes (slice off n (write off n value a).bytes) ≡ value
read_written off n value a v fits small =
    let src = to_le_bytes n value in
    let len = length-to_le_bytes n value in
    let back : slice off n (overwrite off src a.bytes) ≡ src =
      rw len at (slice-overwrite_self off src a.bytes (omega (arith, len, v.bytes_len))) in
    rw back (from_le_bytes-to_le_bytes n value small)

read_before :
    (o m off n value : ℕ) (a : Account)
    → o + m ≤ off
    → slice o m (write off n value a).bytes ≡ slice o m a.bytes
read_before o m off n value a h = slice-overwrite_before o m off (to_le_bytes n value) a.bytes h

read_after :
    (o m off n value : ℕ) (a : Account)
    → off + n ≤ o
    → slice o m (write off n value a).bytes ≡ slice o m a.bytes
read_after o m off n value a h =
    slice-overwrite_after o m off (to_le_bytes n value) a.bytes
      (omega (arith, length-to_le_bytes n value))

clear_flag-lt : (b : ℕ) → b < 256 → clear_flag b < 256
clear_flag-lt b h = omega (arith, clear_flag_lem b h)

raise_flag-lt : (b : ℕ) → b < 256 → raise_flag b < 256
raise_flag-lt b h = omega (arith, raise_flag_lem b h)

pub set_frozen-IsAccount : (f : Bool) (a : Account) → IsAccount a → IsAccount (set_frozen f a)
unfolding set_frozen
set_frozen-IsAccount true a v = record {
  bytes_len = omega (arith, length-modify 47 raise_flag a.bytes, v.bytes_len);
  are_bytes = modify-AreBytes 47 raise_flag a.bytes raise_flag-lt v.are_bytes;
}
set_frozen-IsAccount false a v = record {
  bytes_len = omega (arith, length-modify 47 clear_flag a.bytes, v.bytes_len);
  are_bytes = modify-AreBytes 47 clear_flag a.bytes clear_flag-lt v.are_bytes;
}

raw-set_frozen :
    (f : Bool) (a : Account)
    → IsAccount a
    → raw (set_frozen f a) ≡ (if f then raw a % 2 ^ 127 + 2 ^ 127 else raw a % 2 ^ 127)
unfolding set_frozen
raw-set_frozen true a v =
    rw (slice-modify_within 32 16 15 47 raise_flag a.bytes refl (omega arith))
      (raised (slice 32 16 a.bytes) (slice_bytes v) (slice_len v))
raw-set_frozen false a v =
    rw (slice-modify_within 32 16 15 47 clear_flag a.bytes refl (omega arith))
      (cleared (slice 32 16 a.bytes) (slice_bytes v) (slice_len v))

-- The fields other than the balance and its flag.
pub record SameOthers (a b : Account) : Type 0 where
  pub same_pubkey : pubkey b ≡ pubkey a
  pub same_nonce : nonce b ≡ nonce a
  pub same_last_active : last_active b ≡ last_active a

set_frozen-SameOthers : (f : Bool) (a : Account) → SameOthers a (set_frozen f a)
unfolding set_frozen pubkey nonce last_active
set_frozen-SameOthers true a = record {
  same_pubkey = slice-modify_before 0 32 47 raise_flag a.bytes (omega arith);
  same_nonce = ap from_le_bytes (slice-modify_after 48 8 47 raise_flag a.bytes (omega arith));
  same_last_active = ap from_le_bytes (slice-modify_after 56 8 47 raise_flag a.bytes (omega arith));
}
set_frozen-SameOthers false a = record {
  same_pubkey = slice-modify_before 0 32 47 clear_flag a.bytes (omega arith);
  same_nonce = ap from_le_bytes (slice-modify_after 48 8 47 clear_flag a.bytes (omega arith));
  same_last_active = ap from_le_bytes (slice-modify_after 56 8 47 clear_flag a.bytes (omega arith));
}

-- `set_frozen` sets the flag as asked, and changes neither the balance nor another field.
pub set_frozen_lem :
    (f : Bool) (a : Account)
    → IsAccount a
    → (is_frozen (set_frozen f a) ≡ f)
      × (balance (set_frozen f a) ≡ balance a)
      × SameOthers a (set_frozen f a)
set_frozen_lem f a v =
    let v' = set_frozen-IsAccount f a v in
    (
      ground (arith, is_frozen-raw v', raw-set_frozen f a v),
      ground (arith, balance-raw v', balance-raw v, raw-set_frozen f a v),
      set_frozen-SameOthers f a,
    )

balance_bytes-SameOthers : (value : ℕ) (a : Account) → SameOthers a (write 32 16 value a)
unfolding pubkey nonce last_active
balance_bytes-SameOthers value a = record {
  same_pubkey = read_before 0 32 32 16 value a (omega arith);
  same_nonce = ap from_le_bytes (read_after 48 8 32 16 value a (omega arith));
  same_last_active = ap from_le_bytes (read_after 56 8 32 16 value a (omega arith));
}

SameOthers-trans : {a b d : Account} → SameOthers a b → SameOthers b d → SameOthers a d
SameOthers-trans h k = record {
  same_pubkey = k.same_pubkey ∙ h.same_pubkey;
  same_nonce = k.same_nonce ∙ h.same_nonce;
  same_last_active = k.same_last_active ∙ h.same_last_active;
}

pub set_balance-IsAccount : (n : ℕ) (a : Account) → IsAccount a → IsAccount (set_balance n a)
unfolding set_balance
set_balance-IsAccount n a v = elim (Bool-cases (is_frozen a)) [
  | inl frozen ↦
      rw frozen (set_frozen-IsAccount true (write 32 16 n a) (write-IsAccount 32 16 n a v))
  | inr free ↦ rw free (write-IsAccount 32 16 n a v)
]

-- `set_balance` of a u128 stores the lower 127 bits. The flag stays up if it was up, and is raised as well if
-- the amount has bit 127. No other field changes.
pub set_balance_lem :
    (n : ℕ) (a : Account)
    → IsAccount a
    → n < 2 ^ 128
    → (balance (set_balance n a) ≡ n % 2 ^ 127)
      × (is_frozen (set_balance n a) ≡ (is_frozen a || leb (2 ^ 127) n))
      × SameOthers a (set_balance n a)
unfolding set_balance
set_balance_lem n a v h =
    let b = write 32 16 n a in
    let vb = write-IsAccount 32 16 n a v in
    let stored : raw b ≡ n = read_written 32 16 n a v (omega arith) (omega arith) in
    elim (Bool-cases (is_frozen a)) [
      | inr free ↦ (
        rw free (ground (arith, balance-raw vb, stored)),
        rw free (ground (arith, is_frozen-raw vb, stored)),
        rw free (balance_bytes-SameOthers n a),
      )
      | inl frozen ↦
          let vf = set_frozen-IsAccount true b vb in
          (
            rw frozen (ground (arith, balance-raw vf, raw-set_frozen true b vb, stored)),
            rw frozen (ground (arith, is_frozen-raw vf, raw-set_frozen true b vb, stored)),
            rw frozen
                (SameOthers-trans (balance_bytes-SameOthers n a) (set_frozen-SameOthers true b)),
          )
    ]

pub set_nonce-IsAccount : (n : ℕ) (a : Account) → IsAccount a → IsAccount (set_nonce n a)
unfolding set_nonce
set_nonce-IsAccount n a v = write-IsAccount 48 8 n a v

-- `set_nonce` stores a u64 in the nonce, and changes nothing else.
pub set_nonce_lem :
    (n : ℕ) (a : Account)
    → IsAccount a
    → n < 2 ^ 64
    → (nonce (set_nonce n a) ≡ n)
      × (pubkey (set_nonce n a) ≡ pubkey a)
      × (balance (set_nonce n a) ≡ balance a)
      × (is_frozen (set_nonce n a) ≡ is_frozen a)
      × (last_active (set_nonce n a) ≡ last_active a)
unfolding set_nonce nonce pubkey last_active
set_nonce_lem n a v h =
    let v' = write-IsAccount 48 8 n a v in
    let same = ap from_le_bytes (read_before 32 16 48 8 n a (omega arith)) in
    (
      read_written 48 8 n a v (omega arith) (omega arith),
      read_before 0 32 48 8 n a (omega arith),
      ground (arith, balance-raw v', balance-raw v, same),
      ground (arith, is_frozen-raw v', is_frozen-raw v, same),
      ap from_le_bytes (read_after 56 8 48 8 n a (omega arith)),
    )

pub set_last_active-IsAccount :
    (n : ℕ) (a : Account) → IsAccount a → IsAccount (set_last_active n a)
unfolding set_last_active
set_last_active-IsAccount n a v = write-IsAccount 56 8 n a v

-- `set_last_active` stores a u64 in its field, and changes nothing else.
pub set_last_active_lem :
    (n : ℕ) (a : Account)
    → IsAccount a
    → n < 2 ^ 64
    → (last_active (set_last_active n a) ≡ n)
      × (pubkey (set_last_active n a) ≡ pubkey a)
      × (balance (set_last_active n a) ≡ balance a)
      × (is_frozen (set_last_active n a) ≡ is_frozen a)
      × (nonce (set_last_active n a) ≡ nonce a)
unfolding set_last_active nonce pubkey last_active
set_last_active_lem n a v h =
    let v' = write-IsAccount 56 8 n a v in
    let same = ap from_le_bytes (read_before 32 16 56 8 n a (omega arith)) in
    (
      read_written 56 8 n a v (omega arith) (omega arith),
      read_before 0 32 56 8 n a (omega arith),
      ground (arith, balance-raw v', balance-raw v, same),
      ground (arith, is_frozen-raw v', is_frozen-raw v, same),
      ap from_le_bytes (read_before 48 8 56 8 n a (omega arith)),
    )
