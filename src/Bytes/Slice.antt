-- ===== src/Bytes/Slice.antt =====
-- Reads and writes of a range of an array, `bytes[off..off + n]` and `copy_from_slice`, and of one
-- byte.
use transformer_vm_bank.Base.{
  ℕ, zero, suc, ◌+◌, ◌*◌, ◌^◌, ◌≤◌, ◌<◌, ◌≡◌, refl, ap, [], ◌∷◌, arith, length, take, drop, get_or,
  length-take, length-drop,
}
use transformer_vm_bank.Bytes.{Bytes, AreBytes, from_le_bytes}
use transformer_vm_bank.Bytes.Encode.{pow256-suc}

-- `bytes[off..off + n]`, within the array.
abbrev pub slice : ℕ → ℕ → Bytes → Bytes
slice off n bs = take n (drop off bs)

-- `bytes[off..off + src.len()].copy_from_slice(src)`, within the array.
unfoldable pub overwrite : ℕ → Bytes → Bytes → Bytes
overwrite off src [] = []
overwrite zero [] (b ∷ bs) = b ∷ bs
overwrite zero (s ∷ src) (b ∷ bs) = s ∷ overwrite zero src bs
overwrite (suc off) src (b ∷ bs) = b ∷ overwrite off src bs

-- `bytes[i] = f(bytes[i])`, within the array.
unfoldable pub modify : ℕ → (ℕ → ℕ) → Bytes → Bytes
modify i f [] = []
modify zero f (b ∷ bs) = f b ∷ bs
modify (suc i) f (b ∷ bs) = b ∷ modify i f bs

pub length-overwrite : (off : ℕ) (src bs : Bytes) → length (overwrite off src bs) ≡ length bs
unfolding overwrite
length-overwrite off src [] = refl
length-overwrite zero [] (b ∷ bs) = refl
length-overwrite zero (s ∷ src) (b ∷ bs) = omega (arith, length-overwrite zero src bs)
length-overwrite (suc off) src (b ∷ bs) = omega (arith, length-overwrite off src bs)

pub length-modify : (i : ℕ) (f : ℕ → ℕ) (bs : Bytes) → length (modify i f bs) ≡ length bs
unfolding modify
length-modify i f [] = refl
length-modify zero f (b ∷ bs) = refl
length-modify (suc i) f (b ∷ bs) = omega (arith, length-modify i f bs)

pub overwrite-AreBytes :
    (off : ℕ) (src bs : Bytes) → AreBytes src → AreBytes bs → AreBytes (overwrite off src bs)
unfolding overwrite
overwrite-AreBytes off src [] hs hb = tt
overwrite-AreBytes zero [] (b ∷ bs) hs hb = hb
overwrite-AreBytes zero (s ∷ src) (b ∷ bs) hs hb = (hs.0, overwrite-AreBytes zero src bs hs.1 hb.1)
overwrite-AreBytes (suc off) src (b ∷ bs) hs hb = (hb.0, overwrite-AreBytes off src bs hs hb.1)

pub modify-AreBytes :
    (i : ℕ) (f : ℕ → ℕ) (bs : Bytes)
    → ((b : ℕ) → b < 256 → f b < 256)
    → AreBytes bs
    → AreBytes (modify i f bs)
unfolding modify
modify-AreBytes i f [] hf hb = tt
modify-AreBytes zero f (b ∷ bs) hf hb = (hf b hb.0, hb.1)
modify-AreBytes (suc i) f (b ∷ bs) hf hb = (hb.0, modify-AreBytes i f bs hf hb.1)

pub slice-AreBytes : (off n : ℕ) (bs : Bytes) → AreBytes bs → AreBytes (slice off n bs)
slice-AreBytes zero zero bs h = tt
slice-AreBytes zero (suc n) [] h = tt
slice-AreBytes zero (suc n) (b ∷ bs) h = (h.0, slice-AreBytes zero n bs h.1)
slice-AreBytes (suc off) zero bs h = tt
slice-AreBytes (suc off) (suc n) [] h = tt
slice-AreBytes (suc off) (suc n) (b ∷ bs) h = slice-AreBytes off (suc n) bs h.1

pub length-slice : (off n : ℕ) (bs : Bytes) → off + n ≤ length bs → length (slice off n bs) ≡ n
length-slice off n bs h = omega (arith, length-take n (drop off bs), length-drop off bs)

-- What is written is read back.
pub slice-overwrite_self :
    (off : ℕ) (src bs : Bytes)
    → off + length src ≤ length bs
    → slice off (length src) (overwrite off src bs) ≡ src
unfolding overwrite
slice-overwrite_self zero [] bs h = refl
slice-overwrite_self zero (s ∷ src) [] h = absurd (omega arith)
slice-overwrite_self zero (s ∷ src) (b ∷ bs) h =
    ap (◌∷◌ s) (slice-overwrite_self zero src bs (omega arith))
slice-overwrite_self (suc off) src [] h = absurd (omega arith)
slice-overwrite_self (suc off) src (b ∷ bs) h = slice-overwrite_self off src bs (omega arith)

-- What lies before or behind the range stays.
pub slice-overwrite_before :
    (o n off : ℕ) (src bs : Bytes) → o + n ≤ off → slice o n (overwrite off src bs) ≡ slice o n bs
unfolding overwrite
slice-overwrite_before o n off src [] h = refl
slice-overwrite_before o zero off src (b ∷ bs) h = refl
slice-overwrite_before o (suc n) zero src (b ∷ bs) h = absurd (omega arith)
slice-overwrite_before zero (suc n) (suc off) src (b ∷ bs) h =
    ap (◌∷◌ b) (slice-overwrite_before zero n off src bs (omega arith))
slice-overwrite_before (suc o) (suc n) (suc off) src (b ∷ bs) h =
    slice-overwrite_before o (suc n) off src bs (omega arith)

pub slice-overwrite_after :
    (o n off : ℕ) (src bs : Bytes)
    → off + length src ≤ o
    → slice o n (overwrite off src bs) ≡ slice o n bs
unfolding overwrite
slice-overwrite_after o n off src [] h = refl
slice-overwrite_after zero n zero [] (b ∷ bs) h = refl
slice-overwrite_after zero n zero (s ∷ src) (b ∷ bs) h = absurd (omega arith)
slice-overwrite_after zero n (suc off) src (b ∷ bs) h = absurd (omega arith)
slice-overwrite_after (suc o) n zero [] (b ∷ bs) h = refl
slice-overwrite_after (suc o) n zero (s ∷ src) (b ∷ bs) h =
    slice-overwrite_after o n zero src bs (omega arith)
slice-overwrite_after (suc o) n (suc off) src (b ∷ bs) h =
    slice-overwrite_after o n off src bs (omega arith)

pub slice-modify_before :
    (o n i : ℕ) (f : ℕ → ℕ) (bs : Bytes) → o + n ≤ i → slice o n (modify i f bs) ≡ slice o n bs
unfolding modify
slice-modify_before o n i f [] h = refl
slice-modify_before o zero i f (b ∷ bs) h = refl
slice-modify_before o (suc n) zero f (b ∷ bs) h = absurd (omega arith)
slice-modify_before zero (suc n) (suc i) f (b ∷ bs) h =
    ap (◌∷◌ b) (slice-modify_before zero n i f bs (omega arith))
slice-modify_before (suc o) (suc n) (suc i) f (b ∷ bs) h =
    slice-modify_before o (suc n) i f bs (omega arith)

pub slice-modify_after :
    (o n i : ℕ) (f : ℕ → ℕ) (bs : Bytes) → i < o → slice o n (modify i f bs) ≡ slice o n bs
unfolding modify
slice-modify_after o n i f [] h = refl
slice-modify_after zero n i f (b ∷ bs) h = absurd (omega arith)
slice-modify_after (suc o) n zero f (b ∷ bs) h = refl
slice-modify_after (suc o) n (suc i) f (b ∷ bs) h = slice-modify_after o n i f bs (omega arith)

-- A byte inside a range, seen from the range.
pub slice-modify_within :
    (o n i j : ℕ) (f : ℕ → ℕ) (bs : Bytes)
    → j ≡ o + i
    → i < n
    → slice o n (modify j f bs) ≡ modify i f (slice o n bs)
unfolding modify
slice-modify_within o zero i j f bs e h = absurd (omega arith)
slice-modify_within zero (suc n) i j f [] e h = refl
slice-modify_within (suc o) (suc n) i j f [] e h = refl
slice-modify_within zero (suc n) zero zero f (b ∷ bs) e h = refl
slice-modify_within zero (suc n) zero (suc j) f (b ∷ bs) e h = absurd (omega arith)
slice-modify_within zero (suc n) (suc i) zero f (b ∷ bs) e h = absurd (omega arith)
slice-modify_within zero (suc n) (suc i) (suc j) f (b ∷ bs) e h =
    ap (◌∷◌ b) (slice-modify_within zero n i j f bs (omega arith) (omega arith))
slice-modify_within (suc o) (suc n) i zero f (b ∷ bs) e h = absurd (omega arith)
slice-modify_within (suc o) (suc n) i (suc j) f (b ∷ bs) e h =
    slice-modify_within o (suc n) i j f bs (omega arith) h

pub get_or-slice :
    (o n i j : ℕ) (bs : Bytes) → j ≡ o + i → i < n → get_or (slice o n bs) i 0 ≡ get_or bs j 0
get_or-slice o zero i j bs e h = absurd (omega arith)
get_or-slice zero (suc n) i j [] e h = refl
get_or-slice (suc o) (suc n) i j [] e h = refl
get_or-slice zero (suc n) zero zero (b ∷ bs) e h = refl
get_or-slice zero (suc n) zero (suc j) (b ∷ bs) e h = absurd (omega arith)
get_or-slice zero (suc n) (suc i) zero (b ∷ bs) e h = absurd (omega arith)
get_or-slice zero (suc n) (suc i) (suc j) (b ∷ bs) e h =
    get_or-slice zero n i j bs (omega arith) (omega arith)
get_or-slice (suc o) (suc n) i zero (b ∷ bs) e h = absurd (omega arith)
get_or-slice (suc o) (suc n) i (suc j) (b ∷ bs) e h = get_or-slice o (suc n) i j bs (omega arith) h

-- The number that little-endian bytes stand for, split at the last byte.
pub record TopByte (n : ℕ) (bs : Bytes) : Type 0 where
  pub low : ℕ
  pub low_lt : low < 256 ^ n
  pub top_lt : get_or bs n 0 < 256
  pub value : from_le_bytes bs ≡ low + 256 ^ n * get_or bs n 0
  pub changed : (f : ℕ → ℕ) → from_le_bytes (modify n f bs) ≡ low + 256 ^ n * f (get_or bs n 0)

pub top_byte : (n : ℕ) (bs : Bytes) → AreBytes bs → length bs ≡ suc n → TopByte n bs
unfolding from_le_bytes modify
top_byte n [] h l = absurd (omega arith)
top_byte zero (b ∷ []) h l = record {
  low = 0;
  low_lt = omega arith;
  top_lt = h.0;
  value = omega arith;
  changed = λ f. omega arith;
}
top_byte zero (b ∷ c ∷ bs) h l = absurd (omega arith)
top_byte (suc n) (b ∷ bs) h l =
    let t = top_byte n bs h.1 (omega arith) in
    record {
      low = b + 256 * t.low;
      low_lt = omega (arith, h.0, t.low_lt, pow256-suc n);
      top_lt = t.top_lt;
      value = rw (t.value, pow256-suc n) (omega arith);
      changed = λ f. rw (t.changed f, pow256-suc n) (omega arith);
    }
