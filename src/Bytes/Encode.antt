-- ===== src/Bytes/Encode.antt =====
-- Fixed-width integer encodings are injective and invert one another.
use transformer_vm_bank.Base.{
  ℕ, zero, suc, ◌+◌, ◌*◌, ◌/◌, ◌%◌, ◌^◌, ◌<◌, ◌≡◌, refl, sym, ap, ◌∙◌, [], ◌∷◌, ◌++◌, arith, length,
  length-append, append-injective, append_assoc,
}
use transformer_vm_bank.Bytes.{
  Bytes, AreBytes, to_le_bytes, to_be_bytes, from_le_bytes, from_be_digits, from_be_bytes,
  push_bytes,
}
use native.Mathlib.Nat.{pow-suc, add-mul-mod_self_left, div-add-mod, mod-eq_of_lt, one-le-pow}

pub length-to_le_bytes : (w n : ℕ) → length (to_le_bytes w n) ≡ w
unfolding to_le_bytes
length-to_le_bytes zero n = refl
length-to_le_bytes (suc w) n = ap suc (length-to_le_bytes w (n / 256))

pub length-to_be_bytes : (w n : ℕ) → length (to_be_bytes w n) ≡ w
unfolding to_be_bytes
length-to_be_bytes zero n = refl
length-to_be_bytes (suc w) n =
    omega (
      arith,
      length-append (to_be_bytes w (n / 256)) (n % 256 ∷ []),
      length-to_be_bytes w (n / 256),
    )

pub to_le_bytes-AreBytes : (w n : ℕ) → AreBytes (to_le_bytes w n)
unfolding to_le_bytes
to_le_bytes-AreBytes zero n = tt
to_le_bytes-AreBytes (suc w) n = (omega arith, to_le_bytes-AreBytes w (n / 256))

pub pow256-suc : (w : ℕ) → 256 ^ suc w ≡ 256 * 256 ^ w
pow256-suc w = rw pow-suc (omega arith)

pub from_le_bytes-to_le_bytes : (w n : ℕ) → n < 256 ^ w → from_le_bytes (to_le_bytes w n) ≡ n
unfolding from_le_bytes to_le_bytes
from_le_bytes-to_le_bytes zero n h = omega arith
from_le_bytes-to_le_bytes (suc w) n h =
    let small : n / 256 < 256 ^ w = omega (arith, pow256-suc w) in
    omega (arith, from_le_bytes-to_le_bytes w (n / 256) small)

pub from_le_bytes-lt : (bs : Bytes) → AreBytes bs → from_le_bytes bs < 256 ^ length bs
unfolding from_le_bytes
from_le_bytes-lt [] h = omega arith
from_le_bytes-lt (b ∷ bs) h = omega (arith, h.0, from_le_bytes-lt bs h.1, pow256-suc (length bs))

pub to_le_bytes-from_le_bytes :
    (bs : Bytes) → AreBytes bs → to_le_bytes (length bs) (from_le_bytes bs) ≡ bs
unfolding from_le_bytes to_le_bytes
to_le_bytes-from_le_bytes [] h = refl
to_le_bytes-from_le_bytes (b ∷ bs) h =
    let low : (b + 256 * from_le_bytes bs) % 256 ≡ b = omega (arith, h.0) in
    let high : (b + 256 * from_le_bytes bs) / 256 ≡ from_le_bytes bs = omega (arith, h.0) in
    rw (low, high, to_le_bytes-from_le_bytes bs h.1)

pub to_be_bytes-injective :
    (w m n : ℕ) → m < 256 ^ w → n < 256 ^ w → to_be_bytes w m ≡ to_be_bytes w n → m ≡ n
unfolding to_be_bytes
to_be_bytes-injective zero m n hm hn e = omega arith
to_be_bytes-injective (suc w) m n hm hn e =
    let parts =
      append-injective (to_be_bytes w (m / 256)) (to_be_bytes w (n / 256))
        (omega (arith, length-to_be_bytes w (m / 256), length-to_be_bytes w (n / 256))) e in
    let last : m % 256 ≡ n % 256 = cc (parts.1) in
    let high : m / 256 ≡ n / 256 =
      to_be_bytes-injective w (m / 256) (n / 256) (omega (arith, pow256-suc w))
        (omega (arith, pow256-suc w)) parts.0 in
    omega arith

pub to_le_bytes-injective :
    (w m n : ℕ) → m < 256 ^ w → n < 256 ^ w → to_le_bytes w m ≡ to_le_bytes w n → m ≡ n
to_le_bytes-injective w m n hm hn e =
    let same : from_le_bytes (to_le_bytes w m) ≡ from_le_bytes (to_le_bytes w n) =
      ap from_le_bytes e in
    omega (arith, from_le_bytes-to_le_bytes w m hm, from_le_bytes-to_le_bytes w n hn)

-- A length-prefixed field is recovered from what follows it.
pub push_bytes-injective :
    (a b : Bytes) {us vs : Bytes}
    → length a < 2 ^ 32
    → length b < 2 ^ 32
    → push_bytes a ++ us ≡ push_bytes b ++ vs
    → (a ≡ b) × (us ≡ vs)
unfolding push_bytes
push_bytes-injective a b {us} {vs} ha hb e =
    let parts =
      append-injective (to_be_bytes 4 (length a % 2 ^ 32)) (to_be_bytes 4 (length b % 2 ^ 32))
        (omega (
          arith,
          length-to_be_bytes 4 (length a % 2 ^ 32),
          length-to_be_bytes 4 (length b % 2 ^ 32),
        ))
        (simp append_assoc at e) in
    let same : length a % 2 ^ 32 ≡ length b % 2 ^ 32 =
      to_be_bytes-injective 4 (length a % 2 ^ 32) (length b % 2 ^ 32) (omega arith) (omega arith)
        parts.0 in
    append-injective a b (omega arith) parts.1

-- The same for an integer of a fixed width in big-endian order.
pub fixed_field :
    (w m n : ℕ) {us vs : Bytes}
    → m < 256 ^ w
    → n < 256 ^ w
    → to_be_bytes w m ++ us ≡ to_be_bytes w n ++ vs
    → (m ≡ n) × (us ≡ vs)
fixed_field w m n hm hn e =
    let parts =
      append-injective (to_be_bytes w m) (to_be_bytes w n)
        (omega (arith, length-to_be_bytes w m, length-to_be_bytes w n)) e in
    (to_be_bytes-injective w m n hm hn parts.0, parts.1)

pub u64_field :
    (m n : ℕ) {us vs : Bytes}
    → m < 256 ^ 8
    → n < 256 ^ 8
    → to_be_bytes 8 m ++ us ≡ to_be_bytes 8 n ++ vs
    → (m ≡ n) × (us ≡ vs)
u64_field m n = fixed_field 8 m n

-- The same for a field of `w` bytes in little-endian order.
pub le_fixed_field :
    (w m n : ℕ) {us vs : Bytes}
    → m < 256 ^ w
    → n < 256 ^ w
    → to_le_bytes w m ++ us ≡ to_le_bytes w n ++ vs
    → (m ≡ n) × (us ≡ vs)
le_fixed_field w m n hm hn e =
    let parts =
      append-injective (to_le_bytes w m) (to_le_bytes w n)
        (omega (arith, length-to_le_bytes w m, length-to_le_bytes w n)) e in
    (to_le_bytes-injective w m n hm hn parts.0, parts.1)

pub le_field :
    (m n : ℕ) {us vs : Bytes}
    → m < 256 ^ 8
    → n < 256 ^ 8
    → to_le_bytes 8 m ++ us ≡ to_le_bytes 8 n ++ vs
    → (m ≡ n) × (us ≡ vs)
le_field m n hm hn e = le_fixed_field 8 m n hm hn e

mod_256_mul : (n p : ℕ) → 0 < p → n % (256 * p) ≡ n % 256 + 256 * (n / 256 % p)
mod_256_mul n p h =
    let low = n % 256 + 256 * (n / 256 % p) in
    let split : n ≡ low + 256 * p * (n / 256 / p) = omega (arith, div-add-mod (n / 256) p) in
    let bound : n / 256 % p < p = omega arith in
    let small : low < 256 * p = omega arith in
    ap (λ k. k % (256 * p)) split
    ∙ add-mul-mod_self_left low (256 * p) (n / 256 / p)
    ∙ mod-eq_of_lt small

-- An encoding of `w` bytes forgets what does not fit them.
pub to_le_bytes-wrap : (w n : ℕ) → to_le_bytes w n ≡ to_le_bytes w (n % 256 ^ w)
unfolding to_le_bytes
to_le_bytes-wrap zero n = refl
to_le_bytes-wrap (suc w) n =
    let rest = mod_256_mul n (256 ^ w) (one-le-pow w 256 (omega arith)) in
    let whole : n % 256 ^ suc w ≡ n % 256 + 256 * (n / 256 % 256 ^ w) = rw (pow256-suc w) rest in
    let low : n % 256 ^ suc w % 256 ≡ n % 256 = omega arith in
    let high : n % 256 ^ suc w / 256 ≡ n / 256 % 256 ^ w = omega arith in
    rw (low, high, sym (to_le_bytes-wrap w (n / 256))) refl

from_be_digits-snoc :
    (high : ℕ) (bs : Bytes) (b : ℕ)
    → from_be_digits high (bs ++ b ∷ []) ≡ 256 * from_be_digits high bs + b
unfolding from_be_digits
from_be_digits-snoc high [] b = refl
from_be_digits-snoc high (x ∷ bs) b = from_be_digits-snoc (256 * high + x) bs b

pub from_be_bytes-to_be_bytes : (w n : ℕ) → n < 256 ^ w → from_be_bytes (to_be_bytes w n) ≡ n
unfolding from_be_digits to_be_bytes
from_be_bytes-to_be_bytes zero n h = omega arith
from_be_bytes-to_be_bytes (suc w) n h =
    let high = from_be_bytes-to_be_bytes w (n / 256) (omega (arith, pow256-suc w)) in
    from_be_digits-snoc 0 (to_be_bytes w (n / 256)) (n % 256) ∙ omega (arith, high)
