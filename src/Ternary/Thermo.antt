-- ===== src/Ternary/Thermo.antt =====
-- ternary_vm/src/thermo.rs: thermometer vectors. `encode(v, max_val)` has `max_val + 1` entries,
-- of which the first `v + 1` are 1, with `v` clamped to `0..=max_val`.
use transformer_vm_bank.Base.{
  ℕ, zero, suc, ◌+◌, ◌≤◌, ◌<◌, ◌≡◌, refl, ap, List, [], ◌∷◌, ◌++◌, some, arith, leb, if◌then◌else◌,
  length, get, replicate, length-replicate,
}
use transformer_vm_bank.Int.{ℤ, pos, negsuc, ◌-ℤ◌}
use Prim.Native.Nat.{min}

-- `v.min(max_val).max(0)`
unfoldable pub clamp : ℤ → ℕ → ℕ
clamp (pos n) max_val = min n max_val
clamp (negsuc n) max_val = 0

-- `for slot in out.iter_mut().take(cap) { *slot = 1; }`
unfoldable pub set_ones : ℕ → List ℤ → List ℤ
set_ones zero out = out
set_ones (suc cap) [] = []
set_ones (suc cap) (slot ∷ out) = pos 1 ∷ set_ones cap out

unfoldable pub encode : ℤ → ℕ → List ℤ
encode v max_val =
    let len = max_val + 1 in
    let cap = min (clamp v max_val + 1) len in set_ones cap (replicate len (pos 0))

-- The thermometers of the bytes of an array, one after the other.
unfoldable pub encode_bytes : List ℕ → List ℤ
encode_bytes [] = []
encode_bytes (b ∷ bytes) = encode (pos b) 255 ++ encode_bytes bytes

-- The entries before the first 0.
unfoldable pub leading_run : List ℤ → ℕ
leading_run [] = 0
leading_run (pos zero ∷ rest) = 0
leading_run (pos (suc n) ∷ rest) = suc (leading_run rest)
leading_run (negsuc n ∷ rest) = suc (leading_run rest)

unfoldable pub decode : List ℤ → ℤ
decode thermo = pos (leading_run thermo) -ℤ pos 1

pub length-set_ones : (cap : ℕ) (out : List ℤ) → length (set_ones cap out) ≡ length out
unfolding set_ones
length-set_ones zero out = refl
length-set_ones (suc cap) [] = refl
length-set_ones (suc cap) (slot ∷ out) = ap suc (length-set_ones cap out)

pub length-encode : (v : ℤ) (max_val : ℕ) → length (encode v max_val) ≡ max_val + 1
unfolding encode
length-encode v max_val = omega (
  arith,
  length-set_ones (min (clamp v max_val + 1) (max_val + 1)) (replicate (max_val + 1) (pos 0)),
  length-replicate (max_val + 1) (pos 0),
)

leading_run-set_ones :
    (cap n : ℕ) → cap ≤ n → leading_run (set_ones cap (replicate n (pos 0))) ≡ cap
unfolding set_ones leading_run
leading_run-set_ones zero zero h = refl
leading_run-set_ones zero (suc n) h = refl
leading_run-set_ones (suc cap) zero h = absurd (omega arith)
leading_run-set_ones (suc cap) (suc n) h = ap suc (leading_run-set_ones cap n (omega arith))

-- Decoding inverts encoding on the values from 0 to `max_val`, and any other value comes back as
-- the nearest of them.
pub decode-encode : (v : ℤ) (max_val : ℕ) → decode (encode v max_val) ≡ pos (clamp v max_val)
unfolding encode decode ◌-ℤ◌ clamp
decode-encode v max_val =
    let run =
      leading_run-set_ones (min (clamp v max_val + 1) (max_val + 1)) (max_val + 1) (omega arith) in
    ground (arith, run)

-- Entry `i` of a thermometer of `n` is 1 up to `n` and 0 above.
get-set_ones :
    (cap n i : ℕ)
    → i < n
    → get (set_ones cap (replicate n (pos 0))) i ≡ some (pos (if leb (suc i) cap then 1 else 0))
unfolding set_ones
get-set_ones zero zero i h = absurd (omega arith)
get-set_ones (suc cap) zero i h = absurd (omega arith)
get-set_ones zero (suc n) zero h = refl
get-set_ones zero (suc n) (suc i) h = ground (arith, get-set_ones zero n i)
get-set_ones (suc cap) (suc n) zero h = ground arith
get-set_ones (suc cap) (suc n) (suc i) h = ground (arith, get-set_ones cap n i)

pub get-encode :
    (n max_val i : ℕ)
    → n ≤ max_val
    → i ≤ max_val
    → get (encode (pos n) max_val) i ≡ some (pos (if leb i n then 1 else 0))
unfolding encode clamp
get-encode n max_val i hn hi =
    ground (arith, get-set_ones (min (min n max_val + 1) (max_val + 1)) (max_val + 1) i)
