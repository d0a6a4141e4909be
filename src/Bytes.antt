-- ===== src/Bytes.antt =====
-- Byte strings as lists of numbers below 256: Rust's `Vec<u8>`, `[u8; N]` and `&[u8]`, their
-- comparison, and the fixed-width encodings `to_be_bytes`, `to_le_bytes` and `from_le_bytes`.
pub mod Encode
pub mod Slice
use Prim.Native.Char.{code}
use Prim.Native.String.{String}
use transformer_vm_bank.Base.{
  ℕ, zero, suc, ◌+◌, ◌*◌, ◌/◌, ◌%◌, ◌^◌, ◌<◌, ◌≡◌, refl, ◌↔◌, Bool, true, false, ◌&&◌, List, [],
  ◌∷◌, ◌++◌, arith, ◌==◌, length, All,
}

abbrev pub Bytes : Type 0
Bytes = List ℕ

abbrev pub AreBytes : Bytes → Type 0
AreBytes = All (λ b. b < 256)

-- `a == b` on arrays and vectors of bytes.
unfoldable pub bytes_eq : Bytes → Bytes → Bool
bytes_eq [] [] = true
bytes_eq [] (y ∷ ys) = false
bytes_eq (x ∷ xs) [] = false
bytes_eq (x ∷ xs) (y ∷ ys) = x == y && bytes_eq xs ys

pub bytes_eq_refl : (xs : Bytes) → bytes_eq xs xs ≡ true
unfolding bytes_eq
bytes_eq_refl [] = refl
bytes_eq_refl (x ∷ xs) = ground (arith, bytes_eq_refl xs)

pub eq_of_bytes_eq : (xs ys : Bytes) → bytes_eq xs ys ≡ true → xs ≡ ys
unfolding bytes_eq
eq_of_bytes_eq [] [] h = refl
eq_of_bytes_eq [] (y ∷ ys) h = cc
eq_of_bytes_eq (x ∷ xs) [] h = cc
eq_of_bytes_eq (x ∷ xs) (y ∷ ys) h = ground (arith, eq_of_bytes_eq xs ys)

pub bytes_eq_iff : (xs ys : Bytes) → (bytes_eq xs ys ≡ true) ↔ (xs ≡ ys)
bytes_eq_iff xs ys = (eq_of_bytes_eq xs ys, λ e. rw e (bytes_eq_refl ys))

-- `s.as_bytes()`: the bytes of an ASCII text.
abbrev pub as_bytes : String → Bytes
as_bytes String.[] = []
as_bytes (String.◌∷◌ c s) = code c ∷ as_bytes s

-- `n.to_le_bytes()` of an integer type of `w` bytes.
unfoldable pub to_le_bytes : ℕ → ℕ → Bytes
to_le_bytes zero n = []
to_le_bytes (suc w) n = n % 256 ∷ to_le_bytes w (n / 256)

-- `n.to_be_bytes()` of an integer type of `w` bytes.
unfoldable pub to_be_bytes : ℕ → ℕ → Bytes
to_be_bytes zero n = []
to_be_bytes (suc w) n = to_be_bytes w (n / 256) ++ n % 256 ∷ []

-- `uN::from_le_bytes(bytes)`.
unfoldable pub from_le_bytes : Bytes → ℕ
from_le_bytes [] = 0
from_le_bytes (b ∷ bs) = b + 256 * from_le_bytes bs

-- `uN::from_be_bytes(bytes)`, from the digits read so far on.
unfoldable pub from_be_digits : ℕ → Bytes → ℕ
from_be_digits high [] = high
from_be_digits high (b ∷ bs) = from_be_digits (256 * high + b) bs

abbrev pub from_be_bytes : Bytes → ℕ
from_be_bytes bs = from_be_digits 0 bs

-- `push_bytes`: the length as a big-endian u32, then the bytes.
unfoldable pub push_bytes : Bytes → Bytes
push_bytes b = to_be_bytes 4 (length b % 2 ^ 32) ++ b
