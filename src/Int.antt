-- ===== src/Int.antt =====
-- Signed integers over the native numbers: `i64` values and their checked operations, Rust's
-- `i64::checked_add` and `i64::checked_sub`, and `u32::checked_add` on the native numbers.
use transformer_vm_bank.Base.{
  ℕ, suc, ◌+◌, ◌-◌, ◌*◌, ◌^◌, ◌≤◌, ◌<◌, ◌≡◌, refl, Bool, true, false, Option, none, some, arith,
  ltb, leb, if◌then◌else◌,
}

-- `negsuc n` is -(n + 1).
pub data ℤ : Type 0 where
  pos : ℕ → ℤ
  negsuc : ℕ → ℤ

abbrev pub pos_part : ℤ → ℕ
pos_part (pos n) = n
pos_part (negsuc n) = 0

abbrev pub neg_part : ℤ → ℕ
neg_part (pos n) = 0
neg_part (negsuc n) = suc n

-- a - b, as an integer.
abbrev pub sub_ℕ : ℕ → ℕ → ℤ
sub_ℕ a b = if leb b a then pos (a - b) else negsuc (b - a - 1)

infixl 65 ◌+ℤ◌ ◌-ℤ◌
infix 50 ◌≤ℤ◌
unfoldable pub ◌+ℤ◌ : ℤ → ℤ → ℤ
a +ℤ b = sub_ℕ (pos_part a + pos_part b) (neg_part a + neg_part b)

unfoldable pub ◌-ℤ◌ : ℤ → ℤ → ℤ
a -ℤ b = sub_ℕ (pos_part a + neg_part b) (neg_part a + pos_part b)

abbrev pub ◌≤ℤ◌ : ℤ → ℤ → Type 0
a ≤ℤ b = pos_part a + neg_part b ≤ pos_part b + neg_part a

abbrev pub ltb_ℤ : ℤ → ℤ → Bool
ltb_ℤ a b = ltb (pos_part a + neg_part b) (pos_part b + neg_part a)

pub +ℤ_parts :
    (a b : ℤ)
    → pos_part (a +ℤ b) + neg_part a + neg_part b ≡ neg_part (a +ℤ b) + pos_part a + pos_part b
unfolding ◌+ℤ◌
+ℤ_parts a b = ground arith

pub -ℤ_parts :
    (a b : ℤ)
    → pos_part (a -ℤ b) + neg_part a + pos_part b ≡ neg_part (a -ℤ b) + pos_part a + neg_part b
unfolding ◌-ℤ◌
-ℤ_parts a b = ground arith

pub eq_of_parts : (a b : ℤ) → pos_part a + neg_part b ≡ pos_part b + neg_part a → a ≡ b
eq_of_parts a b h = ground arith

-- A sum has no larger parts than its terms.
pub +ℤ_pos : (a b : ℤ) → pos_part (a +ℤ b) ≤ pos_part a + pos_part b
unfolding ◌+ℤ◌
+ℤ_pos a b = ground arith

pub +ℤ_neg : (a b : ℤ) → neg_part (a +ℤ b) ≤ neg_part a + neg_part b
unfolding ◌+ℤ◌
+ℤ_neg a b = ground arith

pub -ℤ_pos : (a b : ℤ) → pos_part (a -ℤ b) ≤ pos_part a + neg_part b
unfolding ◌-ℤ◌
-ℤ_pos a b = ground arith

pub -ℤ_neg : (a b : ℤ) → neg_part (a -ℤ b) ≤ neg_part a + pos_part b
unfolding ◌-ℤ◌
-ℤ_neg a b = ground arith

pub ruleset int_laws = (arith, +ℤ_parts, -ℤ_parts, eq_of_parts)

pub +ℤ_assoc : (a b c : ℤ) → a +ℤ b +ℤ c ≡ a +ℤ (b +ℤ c)
+ℤ_assoc a b c = omega int_laws

pub -ℤ_assoc : (a b c : ℤ) → a -ℤ b -ℤ c ≡ a -ℤ (b +ℤ c)
-ℤ_assoc a b c = omega int_laws

pub +ℤ_zero : (a : ℤ) → a +ℤ pos 0 ≡ a
+ℤ_zero a = omega int_laws

pub -ℤ_zero : (a : ℤ) → a -ℤ pos 0 ≡ a
-ℤ_zero a = omega int_laws

pub pos-add : (a b : ℕ) → pos a +ℤ pos b ≡ pos (a + b)
pos-add a b = omega int_laws

-- The values of an i64: from -2^63 to 2^63 - 1.
unfoldable pub in_i64 : ℤ → Bool
in_i64 (pos n) = ltb n (2 ^ 63)
in_i64 (negsuc n) = ltb n (2 ^ 63)

unfoldable pub checked_add : ℤ → ℤ → Option ℤ
checked_add a b = if in_i64 (a +ℤ b) then some (a +ℤ b) else none

unfoldable pub checked_sub : ℤ → ℤ → Option ℤ
checked_sub a b = if in_i64 (a -ℤ b) then some (a -ℤ b) else none

pub in_i64-small : (a : ℤ) → pos_part a + neg_part a < 2 ^ 63 → in_i64 a ≡ true
unfolding in_i64
in_i64-small a h = ground arith

-- `checked_add` is the sum, never a wrapped one, and fails outside the range only.
pub checked_add-small :
    (a b : ℤ)
    → pos_part a + neg_part a + (pos_part b + neg_part b) < 2 ^ 63
    → checked_add a b ≡ some (a +ℤ b)
unfolding checked_add
checked_add-small a b h = rw (in_i64-small (a +ℤ b) (omega (arith, +ℤ_pos a b, +ℤ_neg a b))) refl

pub checked_sub-small :
    (a b : ℤ)
    → pos_part a + neg_part a + (pos_part b + neg_part b) < 2 ^ 63
    → checked_sub a b ≡ some (a -ℤ b)
unfolding checked_sub
checked_sub-small a b h = rw (in_i64-small (a -ℤ b) (omega (arith, -ℤ_pos a b, -ℤ_neg a b))) refl

pub checked_add-exact : (a b : ℤ) {c : ℤ} → checked_add a b ≡ some c → c ≡ a +ℤ b
unfolding checked_add
checked_add-exact a b h = ground arith

pub checked_sub-exact : (a b : ℤ) {c : ℤ} → checked_sub a b ≡ some c → c ≡ a -ℤ b
unfolding checked_sub
checked_sub-exact a b h = ground arith

-- `u32::checked_add`
unfoldable pub checked_add_u32 : ℕ → ℕ → Option ℕ
checked_add_u32 a b = if ltb (a + b) (2 ^ 32) then some (a + b) else none
