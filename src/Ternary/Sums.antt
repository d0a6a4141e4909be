-- ===== src/Ternary/Sums.antt =====
-- Sums of entries of vectors, which the first layers of the primitives compute over thermometers.
use transformer_vm_bank.Base.{
  ℕ, zero, suc, ◌+◌, ◌-◌, ◌*◌, ◌≤◌, ◌<◌, ◌≡◌, refl, sym, ap, ◌∙◌, List, [], ◌∷◌, ◌++◌, arith,
  length, get_or, range, All, replicate, All-append, append_assoc, length-append, get_or-map-range,
  ltb, if◌then◌else◌, get_or-append-right,
}
use transformer_vm_bank.Bytes.{AreBytes}
use transformer_vm_bank.Int.{ℤ, pos, ◌+ℤ◌, +ℤ_assoc, int_laws}
use transformer_vm_bank.Ternary.Thermo.{encode, encode_bytes, length-encode, set_ones, clamp}
use transformer_vm_bank.Ternary.Parallel.{naturals}
use transformer_vm_bank.Ternary.Network.Kernel.{sum_at, magnitude}
use Prim.Native.Nat.{min}

unfoldable pub sum : List ℤ → ℤ
sum [] = pos 0
sum (v ∷ xs) = v +ℤ sum xs

pub sum_at-append : (x : List ℤ) (js ks : List ℕ) → sum_at x (js ++ ks) ≡ sum_at x js +ℤ sum_at x ks
unfolding sum_at
sum_at-append x [] ks = omega int_laws
sum_at-append x (j ∷ js) ks =
    rw (sum_at-append x js ks) (sym (+ℤ_assoc (get_or x j (pos 0)) (sum_at x js) (sum_at x ks)))

sum_at-shift :
    (pre x : List ℤ) (i n : ℕ) → sum_at (pre ++ x) (range (length pre + i) n) ≡ sum_at x (range i n)
unfolding sum_at
sum_at-shift pre x i zero = refl
sum_at-shift pre x i (suc n) =
    let next : length pre + suc i ≡ suc (length pre + i) = omega arith in
    let rest : sum_at (pre ++ x) (range (suc (length pre + i)) n) ≡ sum_at x (range (suc i) n) =
      rw (sym next) (sum_at-shift pre x (suc i) n) in
    rw (get_or-append-right pre x (length pre + i) i (pos 0) refl, rest) refl

sum_at-first : (x post : List ℤ) → sum_at (x ++ post) (range 0 (length x)) ≡ sum x
unfolding sum_at sum
sum_at-first [] post = refl
sum_at-first (v ∷ x) post =
    rw (sum_at-shift (v ∷ []) (x ++ post) 0 (length x), sum_at-first x post) refl

-- The sum of a part of a vector, given by the indices of the part.
pub sum_at-part :
    (pre x post : List ℤ) (i n : ℕ)
    → length pre ≡ i
    → length x ≡ n
    → sum_at (pre ++ (x ++ post)) (range i n) ≡ sum x
sum_at-part pre x post i n hi hn =
    let shifted : sum_at (pre ++ (x ++ post)) (range (length pre + 0) (length x)) ≡ sum x =
      rw (sum_at-shift pre (x ++ post) 0 (length x)) (sum_at-first x post) in
    let start : length pre + 0 ≡ i = omega arith in rw (sym start, sym hn) shifted

sum-set_ones : (cap n : ℕ) → cap ≤ n → sum (set_ones cap (replicate n (pos 0))) ≡ pos cap
unfolding sum set_ones ◌+ℤ◌
sum-set_ones zero zero h = refl
sum-set_ones zero (suc n) h = rw (sum-set_ones zero n (omega arith)) refl
sum-set_ones (suc cap) zero h = absurd (omega arith)
sum-set_ones (suc cap) (suc n) h = rw (sum-set_ones cap n (omega arith)) (ground arith)

-- A thermometer of `v` adds up to `v + 1`.
pub sum-encode : (v max_val : ℕ) → v ≤ max_val → sum (encode (pos v) max_val) ≡ pos (v + 1)
unfolding encode clamp
sum-encode v max_val h =
    sum-set_ones (min (min v max_val + 1) (max_val + 1)) (max_val + 1) (omega arith)
    ∙ ap pos (omega arith)

small-set_ones : (cap n : ℕ) → All (λ v. magnitude v ≤ 1) (set_ones cap (replicate n (pos 0)))
unfolding set_ones
small-set_ones zero zero = tt
small-set_ones (suc cap) zero = tt
small-set_ones zero (suc n) = (omega arith, small-set_ones zero n)
small-set_ones (suc cap) (suc n) = (omega arith, small-set_ones cap n)

pub small-encode : (v : ℤ) (max_val : ℕ) → All (λ w. magnitude w ≤ 1) (encode v max_val)
unfolding encode
small-encode v max_val = small-set_ones (min (clamp v max_val + 1) (max_val + 1)) (max_val + 1)

pub range-lt : (i n len : ℕ) → i + n ≤ len → All (λ j. j < len) (range i n)
range-lt i zero len h = tt
range-lt i (suc n) len h = (omega arith, range-lt (suc i) n len (omega arith))

-- The sum of `f` over the `m` numbers from `i` on.
unfoldable pub total : (ℕ → ℕ) → ℕ → ℕ → ℕ
total f i zero = 0
total f i (suc m) = f i + total f (suc i) m

pub sum_at-naturals :
    (f : ℕ → ℕ) (n i m : ℕ) → i + m ≤ n → sum_at (naturals f n) (range i m) ≡ pos (total f i m)
unfolding sum_at total ◌+ℤ◌
sum_at-naturals f n i zero h = refl
sum_at-naturals f n i (suc m) h =
    rw
      (
        get_or-map-range (λ k. pos (f k)) n i (pos 0) (omega arith),
        sum_at-naturals f n (suc i) m (omega arith),
      )
      (ground arith)

-- The sum of a step down from 1 to 0 at `c`.
pub total-step :
    (f : ℕ → ℕ) (c i m : ℕ)
    → ((k : ℕ) → i ≤ k → k < i + m → f k ≡ (if ltb k c then 1 else 0))
    → total f i m ≡ min (c - i) m
unfolding total
total-step f c i zero h = omega arith
total-step f c i (suc m) h = ground (
  arith,
  h i (omega arith) (omega arith),
  total-step f c (suc i) m (λ k lo hi. h k (omega arith) (omega arith)),
)

pub length-encode_bytes : (bytes : List ℕ) → length (encode_bytes bytes) ≡ 256 * length bytes
unfolding encode_bytes
length-encode_bytes [] = refl
length-encode_bytes (b ∷ bytes) = omega (
  arith,
  length-append (encode (pos b) 255) (encode_bytes bytes),
  length-encode (pos b) 255,
  length-encode_bytes bytes,
)

pub small-encode_bytes : (bytes : List ℕ) → All (λ w. magnitude w ≤ 1) (encode_bytes bytes)
unfolding encode_bytes
small-encode_bytes [] = tt
small-encode_bytes (b ∷ bytes) =
    All-append (λ w. magnitude w ≤ 1) (encode (pos b) 255) (encode_bytes bytes)
      (small-encode (pos b) 255) (small-encode_bytes bytes)

-- The 256 columns of byte `k` add up to its value plus one.
pub sum_at-byte :
    (pre : List ℤ) (bytes : List ℕ) (start k : ℕ)
    → AreBytes bytes
    → k < length bytes
    → start ≡ length pre + 256 * k
    → sum_at (pre ++ encode_bytes bytes) (range start 256) ≡ pos (get_or bytes k 0 + 1)
unfolding encode_bytes
sum_at-byte pre [] start k h lt e = absurd (omega arith)
sum_at-byte pre (b ∷ bytes) start zero h lt e =
    sum_at-part pre (encode (pos b) 255) (encode_bytes bytes) start 256 (omega arith)
      (length-encode (pos b) 255)
    ∙ sum-encode b 255 (omega (arith, h.0))
sum_at-byte pre (b ∷ bytes) start (suc k) h lt e =
    let next = pre ++ encode (pos b) 255 in
    let len : length next ≡ length pre + 256 =
      omega (arith, length-append pre (encode (pos b) 255), length-encode (pos b) 255) in
    let whole : next ++ encode_bytes bytes ≡ pre ++ (encode (pos b) 255 ++ encode_bytes bytes) =
      append_assoc pre (encode (pos b) 255) (encode_bytes bytes) in
    rw (sym whole) (sum_at-byte next bytes start k h.1 (omega arith) (omega arith))
