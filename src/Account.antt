-- ===== src/Account.antt =====
-- crypto/src/account.rs: the 64-byte account record. The highest bit of the 16 balance bytes is the
-- frozen flag.
pub mod Flag
pub mod Fields
mod Tests
use Prim.Native.Nat.{bit_and, bit_or}
use transformer_vm_bank.Base.{ℕ, Bool, true, not, replicate, get_or, ◌==◌, if◌then◌else◌}
use transformer_vm_bank.Bytes.{Bytes, to_le_bytes, from_le_bytes}
use transformer_vm_bank.Bytes.Slice.{slice, overwrite, modify}

pub record Account : Type 0 where
  pub bytes : Bytes

abbrev pub account_bytes : ℕ
account_bytes = 64

abbrev pub balance_offset : ℕ
balance_offset = 32

abbrev pub nonce_offset : ℕ
nonce_offset = 48

abbrev pub last_active_offset : ℕ
last_active_offset = 56

abbrev pub flags_byte : ℕ
flags_byte = 47

abbrev pub frozen_flag : ℕ
frozen_flag = 0x80

-- `b & !FROZEN_FLAG` on a u8
unfoldable pub clear_flag : ℕ → ℕ
clear_flag b = bit_and b 0x7f

-- `b | FROZEN_FLAG`
unfoldable pub raise_flag : ℕ → ℕ
raise_flag b = bit_or b frozen_flag

unfoldable pub default : Account
default = record { bytes = replicate 64 0 }

unfoldable pub new : Bytes → Account
new pubkey = record { bytes = overwrite 0 pubkey (replicate 64 0) }

unfoldable pub pubkey : Account → Bytes
pubkey a = slice 0 32 a.bytes

unfoldable pub balance : Account → ℕ
balance a = from_le_bytes (modify 15 clear_flag (slice balance_offset 16 a.bytes))

unfoldable pub is_frozen : Account → Bool
is_frozen a = not (bit_and (get_or a.bytes flags_byte 0) frozen_flag == 0)

unfoldable pub set_frozen : Bool → Account → Account
set_frozen frozen a =
    if frozen
    then record { bytes = modify flags_byte raise_flag a.bytes }
    else record { bytes = modify flags_byte clear_flag a.bytes }

unfoldable pub set_balance : ℕ → Account → Account
set_balance amount a =
    let a' : Account = record {
      bytes = overwrite balance_offset (to_le_bytes 16 amount) a.bytes;
    } in
    if is_frozen a then set_frozen true a' else a'

unfoldable pub nonce : Account → ℕ
nonce a = from_le_bytes (slice nonce_offset 8 a.bytes)

unfoldable pub set_nonce : ℕ → Account → Account
set_nonce n a = record { bytes = overwrite nonce_offset (to_le_bytes 8 n) a.bytes }

unfoldable pub last_active : Account → ℕ
last_active a = from_le_bytes (slice last_active_offset 8 a.bytes)

unfoldable pub set_last_active : ℕ → Account → Account
set_last_active epoch a = record {
  bytes = overwrite last_active_offset (to_le_bytes 8 epoch) a.bytes;
}
