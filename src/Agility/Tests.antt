-- ===== src/Agility/Tests.antt =====
-- Runs of the varint codec, and the examples of its theorems.
use transformer_vm_bank.Base.{◌+◌, ◌*◌, ◌^◌, ◌%◌, ◌≡◌, refl, [], ◌∷◌, ◌++◌, ok, err, arith}
use transformer_vm_bank.Agility.Codec.{
  encode_varint, decode_varint, encode_from, decode_from, checked_shl, truncated, too_long,
  decode_varint-encode_varint, decode_varint-drops,
}
use transformer_vm_bank.Int.{checked_add_u32}

encode-300 : encode_varint 300 [] ≡ (172 ∷ 2 ∷ [], 2)
unfolding encode_varint encode_from
encode-300 = refl

decode-empty : decode_varint [] ≡ err truncated
unfolding decode_varint decode_from
decode-empty = refl

decode-six : decode_varint (128 ∷ 128 ∷ 128 ∷ 128 ∷ 128 ∷ 0 ∷ []) ≡ err too_long
unfolding decode_varint decode_from checked_shl checked_add_u32
decode-six = refl

decode_varint-encode_varint_example :
    decode_varint ((encode_varint 300 []).0 ++ (9 ∷ [])) ≡ ok (300, (encode_varint 300 []).1)
decode_varint-encode_varint_example = decode_varint-encode_varint 300 (9 ∷ []) (omega arith)

decode_varint-drops_example :
    decode_varint ((1 + 128) ∷ (0 + 128) ∷ (0 + 128) ∷ (0 + 128) ∷ 16 ∷ [])
    ≡ ok ((1 + 0 * 2 ^ 7 + 0 * 2 ^ 14 + 0 * 2 ^ 21 + 16 * 2 ^ 28) % 2 ^ 32, 5)
decode_varint-drops_example =
    decode_varint-drops 1 0 0 0 16 [] (omega arith) (omega arith) (omega arith) (omega arith)
      (omega arith)
