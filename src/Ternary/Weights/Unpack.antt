-- ===== src/Ternary/Weights/Unpack.antt =====
-- `unpack_weights` of ternary_vm/src/weights.rs. The cursor is the bytes that are left of the
-- payload; a read beyond them is an error, an index outside a vector a panic.
use transformer_vm_bank.Base.{
  ℕ, zero, suc, ◌-◌, ◌^◌, Bool, true, false, ◌&&◌, not, List, [], ◌∷◌, ltb, leb, ◌==◌,
  if◌then◌else◌, length, take, drop, Result, ok, err, ◌>>=◌, ◌>>◌, require, refuse_if,
}
use transformer_vm_bank.Bytes.{Bytes, bytes_eq, from_be_bytes}
use transformer_vm_bank.Crypto.{Crypto}
use transformer_vm_bank.Int.{ℤ, pos, negsuc}
use transformer_vm_bank.Ternary.Errors.{
  Failure, returned, index_out_of_bounds, output_decode, weights_hash_mismatch,
}
use transformer_vm_bank.Ternary.Network.{SparseTernaryLayer, WeightsHeader, index}
use transformer_vm_bank.Ternary.Weights.{magic}

-- `Cursor::take`
unfoldable pub take_bytes : ℕ → Bytes → Result Failure (Bytes × Bytes)
take_bytes n buf =
    if ltb (length buf) n then err (returned output_decode) else ok (take n buf, drop n buf)

-- `read_u8`, `read_u16`, `read_u32` and `read_u64`, by their width.
unfoldable pub read_uint : ℕ → Bytes → Result Failure (ℕ × Bytes)
read_uint w buf = do s ← take_bytes w buf; ok (from_be_bytes s.0, s.1)

-- `i64::from_be_bytes` on the number that the bytes are as a u64.
unfoldable pub i64_of_bits : ℕ → ℤ
i64_of_bits n = if ltb n (2 ^ 63) then pos n else negsuc (2 ^ 64 - 1 - n)

unfoldable pub read_i64 : Bytes → Result Failure (ℤ × Bytes)
read_i64 buf = do s ← read_uint 8 buf; ok (i64_of_bits s.0, s.1)

-- `(0..n).map(|_| read()).collect::<Result<Vec<_>, _>>()`
unfoldable pub read_many {ℓ} :
    {A : Type ℓ}
    → (Bytes → Result Failure (A × Bytes))
    → ℕ
    → Bytes
    → Result Failure (List A × Bytes)
read_many read zero buf = ok ([], buf)
read_many read (suc n) buf = do
  first ← read buf
  rest ← read_many read n first.1
  ok (first.0 ∷ rest.0, rest.1)

-- `cols[lo..hi].to_vec()`
unfoldable pub slice_columns : (lo hi : ℕ) → List ℕ → Result Failure (List ℕ)
slice_columns lo hi cols =
    if leb lo hi && leb hi (length cols)
    then ok (take (hi - lo) (drop lo cols))
    else err index_out_of_bounds

-- The rows from `i` on, `n` of them.
unfoldable pub unpack_rows : (ptrs cols : List ℕ) → (i n : ℕ) → Result Failure (List (List ℕ))
unpack_rows ptrs cols i zero = ok []
unpack_rows ptrs cols i (suc n) = do
  lo ← index ptrs i
  hi ← index ptrs (suc i)
  row ← slice_columns lo hi cols
  rest ← unpack_rows ptrs cols (suc i) n
  ok (row ∷ rest)

unfoldable pub unpack_layer : Bytes → Result Failure (SparseTernaryLayer × Bytes)
unpack_layer buf = do
  l_in ← read_uint 4 buf
  l_out ← read_uint 4 l_in.1
  relu ← read_uint 1 l_out.1
  nnz_pos ← read_uint 8 relu.1
  nnz_neg ← read_uint 8 nnz_pos.1
  pos_ptrs ← read_many (read_uint 4) (suc l_out.0) nnz_neg.1
  pos_cols ← read_many (read_uint 4) nnz_pos.0 pos_ptrs.1
  neg_ptrs ← read_many (read_uint 4) (suc l_out.0) pos_cols.1
  neg_cols ← read_many (read_uint 4) nnz_neg.0 neg_ptrs.1
  bias ← read_many read_i64 l_out.0 neg_cols.1
  pos_indices ← unpack_rows pos_ptrs.0 pos_cols.0 0 l_out.0
  neg_indices ← unpack_rows neg_ptrs.0 neg_cols.0 0 l_out.0
  ok (
    record {
      input_dim = l_in.0;
      output_dim = l_out.0;
      pos_indices = pos_indices;
      neg_indices = neg_indices;
      bias = bias.0;
      relu = not (relu.0 == 0);
    },
    bias.1,
  )

-- The first byte of a UTF-8 sequence: how many bytes follow, and the range of the next one.
unfoldable pub lead_byte : ℕ → Bool × (ℕ × (ℕ × ℕ))
lead_byte b =
    if ltb b 128
    then (true, (0, (0, 0)))
    else if ltb b 194
    then (false, (0, (0, 0)))
    else if ltb b 224
    then (true, (1, (128, 191)))
    else if b == 224
    then (true, (2, (160, 191)))
    else if b == 237
    then (true, (2, (128, 159)))
    else if ltb b 240
    then (true, (2, (128, 191)))
    else if b == 240
    then (true, (3, (144, 191)))
    else if ltb b 244
    then (true, (3, (128, 191)))
    else if b == 244
    then (true, (3, (128, 143)))
    else (false, (0, (0, 0)))

-- What `String::from_utf8` accepts, with `n` bytes of a sequence still to come.
unfoldable pub utf8_from : (n lo hi : ℕ) → Bytes → Bool
utf8_from zero lo hi [] = true
utf8_from (suc n) lo hi [] = false
utf8_from zero lo hi (b ∷ bytes) =
    let lead = lead_byte b in lead.0 && utf8_from (lead.1.0) (lead.1.1.0) (lead.1.1.1) bytes
utf8_from (suc n) lo hi (b ∷ bytes) = leb lo b && (leb b hi && utf8_from n 128 191 bytes)

abbrev pub is_utf8 : Bytes → Bool
is_utf8 bytes = utf8_from 0 0 0 bytes

unfoldable pub unpack_payload :
    Crypto → (payload digest : Bytes) → Result Failure (WeightsHeader × List SparseTernaryLayer)
unpack_payload c payload digest = do
  head ← take_bytes 8 payload
  require (bytes_eq head.0 magic) (returned output_decode)
  version ← read_uint 4 head.1
  name_len ← read_uint 2 version.1
  primitive ← take_bytes name_len.0 name_len.1
  require (is_utf8 primitive.0) (returned output_decode)
  input_dim ← read_uint 4 primitive.1
  output_dim ← read_uint 4 input_dim.1
  n_layers ← read_uint 4 output_dim.1
  layers ← read_many unpack_layer n_layers.0 n_layers.1
  ok (
    record {
      version = version.0;
      primitive = primitive.0;
      input_dim = input_dim.0;
      output_dim = output_dim.0;
      weights_hash = digest;
      weights_hash_v2 = c.blake3_512 payload;
    },
    layers.0,
  )

unfoldable pub unpack_weights :
    Crypto → Bytes → Result Failure (WeightsHeader × List SparseTernaryLayer)
unpack_weights c bytes = do
  refuse_if (ltb (length bytes) 40) (returned output_decode)
  let payload = take (length bytes - 32) bytes
  let stored_digest = drop (length bytes - 32) bytes
  require (bytes_eq stored_digest (c.blake3 payload)) (returned weights_hash_mismatch)
  unpack_payload c payload stored_digest
