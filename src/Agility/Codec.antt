-- ===== src/Agility/Codec.antt =====
-- crypto_agility/src/codec.rs: the variable-length encoding of a u32 before every signature, key and
-- ciphertext, seven bits to a byte, the lowest first.
use transformer_vm_bank.Base.{
  ℕ, zero, suc, ◌+◌, ◌*◌, ◌^◌, ◌/◌, ◌%◌, ◌<◌, ◌≡◌, refl, ap, ◌∙◌, true, false, [], ◌∷◌, ◌++◌,
  Option, some, none, arith, ltb, leb, ◌==◌, if◌then◌else◌, length, Result, ok, err, ok_or,
  refuse_if, ◌>>=◌, ◌>>◌, inl, inr, Bool-cases,
}
use transformer_vm_bank.Bytes.{Bytes}
use transformer_vm_bank.Int.{checked_add_u32}

pub data VarintError : Type 0 where
  truncated : VarintError
  too_long : VarintError
  overflow : VarintError

abbrev pub max_varint_len : ℕ
max_varint_len = 5

-- The loop of `encode_varint`, of at most `n` turns; five are enough for a u32.
unfoldable pub encode_from : (n value : ℕ) → Bytes
encode_from zero value = []
encode_from (suc n) value =
    let rest = encode_from n (value / 128) in
    if value / 128 == 0 then (value % 128) ∷ [] else (value % 128 + 128) ∷ rest

-- What `out` becomes, and the number of bytes written.
unfoldable pub encode_varint : ℕ → Bytes → Bytes × ℕ
encode_varint value out =
    let written = encode_from max_varint_len value in (out ++ written, length written)

-- `u32::checked_shl`: none for a shift of 32 or more; the bits that a smaller shift pushes out are lost.
unfoldable pub checked_shl : (value shift : ℕ) → Option ℕ
checked_shl value shift = if ltb shift 32 then some (value * 2 ^ shift % 2 ^ 32) else none

-- The loop of `decode_varint` from the byte `i` on.
unfoldable pub decode_from : (i shift result : ℕ) → Bytes → Result VarintError (ℕ × ℕ)
decode_from i shift result [] = err truncated
decode_from i shift result (byte ∷ bytes) = do
  refuse_if (leb max_varint_len i) too_long
  chunk ← ok_or (checked_shl (byte % 128) shift) overflow
  result ← ok_or (checked_add_u32 result chunk) overflow
  if ltb byte 128 then ok (result, i + 1) else do
    shift ← ok_or (checked_add_u32 shift 7) overflow
    decode_from (i + 1) shift result bytes

unfoldable pub decode_varint : Bytes → Result VarintError (ℕ × ℕ)
decode_varint bytes = decode_from 0 0 0 bytes

module _ (i shift result p : ℕ) (early : i < 5) (small : shift < 32) (power : 2 ^ shift ≡ p) where
  checked_shl-fits :
      (chunk : ℕ) → result + chunk * p < 2 ^ 32 → checked_shl chunk shift ≡ some (chunk * p)
  unfolding checked_shl
  checked_shl-fits chunk h = rw power (ground (arith, small))

  -- A byte without the high bit ends the number.
  pub decode_from-last :
      (value : ℕ) (rest : Bytes)
      → value < 128
      → result + value * p < 2 ^ 32
      → decode_from i shift result (value ∷ rest) ≡ ok (result + value * p, i + 1)
  unfolding decode_from checked_add_u32
  decode_from-last value rest h fits =
      let low : value % 128 ≡ value = omega arith in
      rw (low, checked_shl-fits value fits) (ground arith)

  -- A byte with it is followed by the rest of the number.
  pub decode_from-next :
      (chunk : ℕ) (rest : Bytes)
      → chunk < 128
      → result + chunk * p < 2 ^ 32
      → decode_from i shift result ((chunk + 128) ∷ rest)
        ≡ decode_from (i + 1) (shift + 7) (result + chunk * p) rest
  unfolding decode_from checked_add_u32
  decode_from-next chunk rest h fits =
      let low : (chunk + 128) % 128 ≡ chunk = omega arith in
      let late : leb 5 i ≡ false = ground arith in
      let room : ltb (result + chunk * p) (2 ^ 32) ≡ true = ground arith in
      let more : ltb (chunk + 128) 128 ≡ false = ground arith in
      let turn : ltb (shift + 7) (2 ^ 32) ≡ true = ground arith in
      rw (late, low, checked_shl-fits chunk fits, room, more, turn) refl

split-product : (v p : ℕ) → v % 128 * p + v / 128 * (128 * p) ≡ v * p
split-product v p =
    let parts : v ≡ 128 * (v / 128) + v % 128 = omega arith in
    let e : v * p ≡ (128 * (v / 128) + v % 128) * p = ap (λ x. x * p) parts in omega (arith, e)

pow7 : (shift p : ℕ) → 2 ^ shift ≡ p → 2 ^ (shift + 7) ≡ 128 * p
pow7 shift p e =
    let turns : shift + 7 ≡ suc (suc (suc (suc (suc (suc (suc shift)))))) = omega arith in
    rw turns (omega (arith, e))

decode_from-encode_from :
    (m i shift result value p : ℕ) (rest : Bytes)
    → m + i ≡ 4
    → shift ≡ 7 * i
    → 2 ^ shift ≡ p
    → value < 128 ^ suc m
    → result + value * p < 2 ^ 32
    → decode_from i shift result (encode_from (suc m) value ++ rest)
      ≡ ok (result + value * p, i + length (encode_from (suc m) value))
unfolding encode_from
decode_from-encode_from zero i shift result value p rest turns at_shift power small fits =
    let last : value / 128 == 0 ≡ true = ground arith in
    let low : value % 128 ≡ value = omega arith in
    rw (last, low)
      (decode_from-last i shift result p (omega arith) (omega arith) power value rest (omega arith)
        fits)
decode_from-encode_from (suc m) i shift result value p rest turns at_shift power small fits =
    let split = split-product value p in
    elim (Bool-cases (value / 128 == 0)) [
      | inl last ↦
          let low : value % 128 ≡ value = ground arith in
          rw (last, low)
            (decode_from-last i shift result p (omega arith) (omega arith) power value rest
              (ground arith) fits)
      | inr more ↦
          let first =
            decode_from-next i shift result p (omega arith) (omega arith) power (value % 128)
              (encode_from (suc m) (value / 128) ++ rest) (omega arith) (omega (arith, split)) in
          let others =
            decode_from-encode_from m (i + 1) (shift + 7) (result + value % 128 * p) (value / 128)
              (128 * p) rest (omega arith) (omega arith) (pow7 shift p power) (omega arith)
              (omega (arith, split)) in
          let total : result + value % 128 * p + value / 128 * (128 * p) ≡ result + value * p =
            omega (arith, split) in
          rw (more, first, others, total) (ap (λ k. ok (result + value * p, k)) (omega arith))
    ]

-- Decoding inverts encoding on every u32, whatever bytes follow: it returns the value and the number
-- of bytes that were written.
pub decode_varint-encode_varint :
    (value : ℕ) (rest : Bytes)
    → value < 2 ^ 32
    → decode_varint ((encode_varint value []).0 ++ rest) ≡ ok (value, (encode_varint value []).1)
unfolding decode_varint encode_varint
decode_varint-encode_varint value rest h =
    let whole : 0 + value * 1 ≡ value = omega arith in
    let count : 0 + length (encode_from 5 value) ≡ length (encode_from 5 value) = omega arith in
    rw (whole, count) at
      (decode_from-encode_from 4 0 0 0 value 1 rest refl refl refl (omega arith) (omega arith))

-- A fifth byte that carries bits beyond the 32 of the result is not refused: those bits are dropped,
-- so a number of 35 bits decodes to its lower 32.
pub decode_varint-drops :
    (a b c d e : ℕ) (rest : Bytes)
    → a < 128
    → b < 128
    → c < 128
    → d < 128
    → e < 128
    → decode_varint ((a + 128) ∷ (b + 128) ∷ (c + 128) ∷ (d + 128) ∷ e ∷ rest)
      ≡ ok ((a + b * 2 ^ 7 + c * 2 ^ 14 + d * 2 ^ 21 + e * 2 ^ 28) % 2 ^ 32, 5)
unfolding decode_varint decode_from checked_shl checked_add_u32
decode_varint-drops a b c d e rest ha hb hc hd he =
    let first =
      decode_from-next 0 0 0 1 (omega arith) (omega arith) refl a
        ((b + 128) ∷ (c + 128) ∷ (d + 128) ∷ e ∷ rest) ha (omega arith) in
    let second =
      decode_from-next 1 7 (0 + a * 1) 128 (omega arith) (omega arith) refl b
        ((c + 128) ∷ (d + 128) ∷ e ∷ rest) hb (omega arith) in
    let third =
      decode_from-next 2 14 (0 + a * 1 + b * 128) 16384 (omega arith) (omega arith) refl c
        ((d + 128) ∷ e ∷ rest) hc (omega arith) in
    let fourth =
      decode_from-next 3 21 (0 + a * 1 + b * 128 + c * 16384) 2097152 (omega arith) (omega arith)
        refl d (e ∷ rest) hd (omega arith) in
    let low = 0 + a * 1 + b * 128 + c * 16384 + d * 2097152 in
    let room : ltb (low + e % 128 * 2 ^ 28 % 2 ^ 32) (2 ^ 32) ≡ true = ground arith in
    let stop : ltb e 128 ≡ true = ground arith in
    let kept : low + e % 128 * 2 ^ 28 % 2 ^ 32
        ≡ (a + b * 2 ^ 7 + c * 2 ^ 14 + d * 2 ^ 21 + e * 2 ^ 28) % 2 ^ 32 =
      omega arith in
    first ∙ second ∙ third ∙ fourth ∙ rw (room, stop, kept) refl
