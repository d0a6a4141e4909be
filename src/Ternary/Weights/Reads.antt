-- ===== src/Ternary/Weights/Reads.antt =====
-- The reads of the cursor of ternary_vm/src/weights.rs undo the writes of `pack_weights`.
use transformer_vm_bank.Base.{
  ℕ, suc, ◌+◌, ◌^◌, ◌≤◌, ◌<◌, ◌≡◌, refl, sym, ap, true, false, List, [], ◌∷◌, ◌++◌, arith, ltb,
  length, take, drop, All, All-append, ok, length-append, append_assoc, append-nil,
}
use transformer_vm_bank.Bytes.{Bytes, to_be_bytes}
use transformer_vm_bank.Bytes.Encode.{length-to_be_bytes, from_be_bytes-to_be_bytes}
use transformer_vm_bank.Int.{ℤ, in_i64}
use transformer_vm_bank.Ternary.Network.{total_length}
use transformer_vm_bank.Ternary.Weights.{i64_bits, pack_offsets, pack_row, pack_columns, pack_bias}
use transformer_vm_bank.Ternary.Weights.Total.{checked_add_u32-fits}
use transformer_vm_bank.Ternary.Weights.Unpack.{
  take_bytes, read_uint, i64_of_bits, read_i64, read_many,
}

module _ {ℓ} {A : Type ℓ} where
  pub take-length : (xs ys : List A) → take (length xs) (xs ++ ys) ≡ xs
  take-length [] ys = refl
  take-length (x ∷ xs) ys = ap (◌∷◌ x) (take-length xs ys)

  pub drop-length : (xs ys : List A) → drop (length xs) (xs ++ ys) ≡ ys
  drop-length [] ys = refl
  drop-length (x ∷ xs) ys = drop-length xs ys

pub take_bytes-append :
    (n : ℕ) (s rest : Bytes) → length s ≡ n → take_bytes n (s ++ rest) ≡ ok (s, rest)
unfolding take_bytes
take_bytes-append n s rest h =
    let enough : ltb (length (s ++ rest)) n ≡ false = ground (arith, length-append s rest) in
    rw (enough, sym h, take-length s rest, drop-length s rest) refl

pub read_uint-append :
    (w n : ℕ) → n < 256 ^ w → (rest : Bytes) → read_uint w (to_be_bytes w n ++ rest) ≡ ok (n, rest)
unfolding read_uint
read_uint-append w n h rest =
    rw
      (
        take_bytes-append w (to_be_bytes w n) rest (length-to_be_bytes w n),
        from_be_bytes-to_be_bytes w n h,
      )
      refl

i64_bits-lt : (b : ℤ) → in_i64 b ≡ true → i64_bits b < 256 ^ 8
unfolding i64_bits in_i64
i64_bits-lt b h = ground arith

i64_of_bits-i64_bits : (b : ℤ) → in_i64 b ≡ true → i64_of_bits (i64_bits b) ≡ b
unfolding i64_bits i64_of_bits in_i64
i64_of_bits-i64_bits b h = ground arith

pub read_i64-append :
    (b : ℤ)
    → in_i64 b ≡ true
    → (rest : Bytes) → read_i64 (to_be_bytes 8 (i64_bits b) ++ rest) ≡ ok (b, rest)
unfolding read_i64
read_i64-append b h rest =
    rw (read_uint-append 8 (i64_bits b) (i64_bits-lt b h) rest, i64_of_bits-i64_bits b h) refl

pub read_row :
    (row : List ℕ)
    → All (λ j. j < 2 ^ 32) row
    → (rest : Bytes) → read_many (read_uint 4) (length row) (pack_row row ++ rest) ≡ ok (row, rest)
unfolding read_many pack_row
read_row [] h rest = refl
read_row (j ∷ row) h rest =
    rw
      (
        append_assoc (to_be_bytes 4 j) (pack_row row) rest,
        read_uint-append 4 j h.0 (pack_row row ++ rest),
        read_row row h.1 rest,
      )
      refl

pub read_bias :
    (bias : List ℤ)
    → All (λ b. in_i64 b ≡ true) bias
    → (rest : Bytes) → read_many read_i64 (length bias) (pack_bias bias ++ rest) ≡ ok (bias, rest)
unfolding read_many pack_bias
read_bias [] h rest = refl
read_bias (b ∷ bias) h rest =
    rw
      (
        append_assoc (to_be_bytes 8 (i64_bits b)) (pack_bias bias) rest,
        read_i64-append b h.0 (pack_bias bias ++ rest),
        read_bias bias h.1 rest,
      )
      refl

-- The offsets and the columns that a layer is packed as.
unfoldable pub offsets : ℕ → List (List ℕ) → List ℕ
offsets ptr [] = ptr ∷ []
offsets ptr (row ∷ rows) = ptr ∷ offsets (ptr + length row) rows

unfoldable pub flatten : List (List ℕ) → List ℕ
flatten [] = []
flatten (row ∷ rows) = row ++ flatten rows

pub length-offsets :
    (ptr : ℕ) (rows : List (List ℕ)) → length (offsets ptr rows) ≡ suc (length rows)
unfolding offsets
length-offsets ptr [] = refl
length-offsets ptr (row ∷ rows) = ap suc (length-offsets (ptr + length row) rows)

pub length-flatten : (rows : List (List ℕ)) → length (flatten rows) ≡ total_length rows
unfolding flatten
length-flatten [] = refl
length-flatten (row ∷ rows) = omega (arith, length-append row (flatten rows), length-flatten rows)

pub offsets-lt :
    (ptr : ℕ) (rows : List (List ℕ))
    → ptr + total_length rows < 2 ^ 32
    → All (λ j. j < 2 ^ 32) (offsets ptr rows)
unfolding offsets
offsets-lt ptr [] h = (omega arith, tt)
offsets-lt ptr (row ∷ rows) h = (omega arith, offsets-lt (ptr + length row) rows (omega arith))

pub flatten-lt :
    (bound : ℕ) (rows : List (List ℕ))
    → bound ≤ 2 ^ 32
    → All (All (λ j. j < bound)) rows
    → All (λ j. j < 2 ^ 32) (flatten rows)
unfolding flatten
flatten-lt bound [] h all = tt
flatten-lt bound (row ∷ rows) h all =
    All-append (λ j. j < 2 ^ 32) row (flatten rows) (row-lt row all.0)
      (flatten-lt bound rows h all.1)
  where
    row-lt : (row : List ℕ) → All (λ j. j < bound) row → All (λ j. j < 2 ^ 32) row
    row-lt [] r = tt
    row-lt (j ∷ row) r = (omega (arith, r.0), row-lt row r.1)

pub pack_offsets-offsets :
    (ptr : ℕ) (rows : List (List ℕ))
    → ptr + total_length rows < 2 ^ 32
    → pack_offsets ptr rows ≡ ok (pack_row (offsets ptr rows))
unfolding pack_offsets offsets pack_row
pack_offsets-offsets ptr [] h = ap ok (sym (append-nil (to_be_bytes 4 ptr)))
pack_offsets-offsets ptr (row ∷ rows) h =
    rw
      (
        checked_add_u32-fits ptr (length row) (omega arith),
        pack_offsets-offsets (ptr + length row) rows (omega arith),
      )
      refl

pack_row-append : (row rest : List ℕ) → pack_row (row ++ rest) ≡ pack_row row ++ pack_row rest
unfolding pack_row
pack_row-append [] rest = refl
pack_row-append (j ∷ row) rest =
    rw (pack_row-append row rest)
      (sym (append_assoc (to_be_bytes 4 j) (pack_row row) (pack_row rest)))

pub pack_columns-flatten : (rows : List (List ℕ)) → pack_columns rows ≡ pack_row (flatten rows)
unfolding pack_columns flatten pack_row
pack_columns-flatten [] = refl
pack_columns-flatten (row ∷ rows) =
    rw (pack_columns-flatten rows) (sym (pack_row-append row (flatten rows)))
