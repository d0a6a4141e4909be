-- ===== src/Account/Flag.antt =====
-- The frozen flag as arithmetic: the balance bytes read as one number, whose highest bit it is.
use Prim.Native.Nat.{bit_and}
use transformer_vm_bank.Base.{
  ℕ, zero, suc, ◌+◌, ◌*◌, ◌/◌, ◌%◌, ◌^◌, ◌<◌, ◌≡◌, refl, Bool, true, not, ◌&&◌, arith, length,
  get_or, ◌==◌, ==_iff, leb,
}
use transformer_vm_bank.Bytes.{Bytes, AreBytes, from_le_bytes}
use transformer_vm_bank.Bytes.Slice.{
  modify, slice, top_byte, get_or-slice, slice-AreBytes, length-slice,
}
use transformer_vm_bank.Account.{Account, clear_flag, raise_flag, balance, is_frozen}

-- Whether a test holds of all numbers below a bound: run on the bound 256, it decides a fact of bytes.
holds_below : (ℕ → Bool) → ℕ → Bool
holds_below test zero = true
holds_below test (suc bound) = holds_below test bound && test bound

of_holds_below :
    (test : ℕ → Bool) (bound b : ℕ) → b < bound → holds_below test bound ≡ true → test b ≡ true
unfolding holds_below
of_holds_below test zero b lt all = absurd (omega arith)
of_holds_below test (suc bound) b lt all = ground (arith, of_holds_below test bound b)

clear_flag_table : holds_below (λ b. clear_flag b == b % 128) 256 ≡ true
unfolding holds_below clear_flag
clear_flag_table = refl

raise_flag_table : holds_below (λ b. raise_flag b == b % 128 + 128) 256 ≡ true
unfolding holds_below raise_flag
raise_flag_table = refl

test_flag_table : holds_below (λ b. (bit_and b 0x80) == (b / 128 * 128)) 256 ≡ true
unfolding holds_below
test_flag_table = refl

pub clear_flag_lem : (b : ℕ) → b < 256 → clear_flag b ≡ b % 128
clear_flag_lem b h =
    (==_iff (clear_flag b) (b % 128)).0
      (of_holds_below (λ b. clear_flag b == b % 128) 256 b h clear_flag_table)

pub raise_flag_lem : (b : ℕ) → b < 256 → raise_flag b ≡ b % 128 + 128
raise_flag_lem b h =
    (==_iff (raise_flag b) (b % 128 + 128)).0
      (of_holds_below (λ b. raise_flag b == b % 128 + 128) 256 b h raise_flag_table)

pub test_flag_lem : (b : ℕ) → b < 256 → bit_and b 0x80 ≡ b / 128 * 128
test_flag_lem b h =
    (==_iff (bit_and b 0x80) (b / 128 * 128)).0
      (of_holds_below (λ b. bit_and b 0x80 == (b / 128 * 128)) 256 b h test_flag_table)

-- What an array of 64 bytes gives.
pub record IsAccount (a : Account) : Type 0 where
  pub bytes_len : length a.bytes ≡ 64
  pub are_bytes : AreBytes a.bytes

-- The 16 balance bytes as one number.
abbrev pub raw : Account → ℕ
raw a = from_le_bytes (slice 32 16 a.bytes)

module _ (bs : Bytes) (h : AreBytes bs) (l : length bs ≡ 16) where
  pub cleared : from_le_bytes (modify 15 clear_flag bs) ≡ from_le_bytes bs % 2 ^ 127
  cleared =
      let t = top_byte 15 bs h l in
      omega (
        arith,
        t.low_lt,
        t.top_lt,
        t.value,
        t.changed clear_flag,
        clear_flag_lem (get_or bs 15 0) t.top_lt,
      )

  pub raised : from_le_bytes (modify 15 raise_flag bs) ≡ from_le_bytes bs % 2 ^ 127 + 2 ^ 127
  raised =
      let t = top_byte 15 bs h l in
      omega (
        arith,
        t.low_lt,
        t.top_lt,
        t.value,
        t.changed raise_flag,
        raise_flag_lem (get_or bs 15 0) t.top_lt,
      )

  pub flagged : (not (bit_and (get_or bs 15 0) 0x80 == 0)) ≡ leb (2 ^ 127) (from_le_bytes bs)
  flagged =
      let t = top_byte 15 bs h l in
      ground (arith, t.low_lt, t.top_lt, t.value, test_flag_lem (get_or bs 15 0) t.top_lt)

module _ {a : Account} (v : IsAccount a) where
  pub slice_bytes : AreBytes (slice 32 16 a.bytes)
  slice_bytes = slice-AreBytes 32 16 a.bytes v.are_bytes

  pub slice_len : length (slice 32 16 a.bytes) ≡ 16
  slice_len = length-slice 32 16 a.bytes (omega (arith, v.bytes_len))

  -- The balance is the number without its highest bit.
  pub balance-raw : balance a ≡ raw a % 2 ^ 127
  unfolding balance
  balance-raw = cleared (slice 32 16 a.bytes) slice_bytes slice_len

  -- The flag is the highest bit.
  pub is_frozen-raw : is_frozen a ≡ leb (2 ^ 127) (raw a)
  unfolding is_frozen
  is_frozen-raw =
      rw (← get_or-slice 32 16 15 47 a.bytes refl (omega arith))
        (flagged (slice 32 16 a.bytes) slice_bytes slice_len)
