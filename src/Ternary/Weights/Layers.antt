-- ===== src/Ternary/Weights/Layers.antt =====
-- The layer reader of ternary_vm/src/weights.rs inverts the layer writer.
use transformer_vm_bank.Base.{
  ℕ, suc, ◌+◌, ◌-◌, ◌*◌, ◌^◌, ◌%◌, ◌≤◌, ◌<◌, ◌≡◌, refl, sym, ◌∙◌, Bool, true, false, not, ◌&&◌,
  ◌==◌, List, [], ◌∷◌, ◌++◌, arith, leb, if◌then◌else◌, length, get, some, All, ok, length-append,
  append_assoc, append-nil, get-append-right,
}
use transformer_vm_bank.Bytes.{Bytes, from_be_digits, to_be_bytes}
use transformer_vm_bank.Int.{in_i64}
use transformer_vm_bank.Ternary.Network.{SparseTernaryLayer, total_length}
use transformer_vm_bank.Ternary.Network.Bounds.{IsShaped}
use transformer_vm_bank.Ternary.Weights.{pack_layer, pack_layers, pack_row, pack_bias}
use transformer_vm_bank.Ternary.Weights.Reads.{
  take-length, drop-length, take_bytes-append, read_uint-append, read_row, read_bias, offsets,
  flatten, length-offsets, length-flatten, offsets-lt, flatten-lt, pack_offsets-offsets,
  pack_columns-flatten,
}
use transformer_vm_bank.Ternary.Weights.Total.{HasOffsets}
use transformer_vm_bank.Ternary.Weights.Unpack.{
  read_uint, read_i64, read_many, slice_columns, unpack_rows, unpack_layer,
}

-- A layer whose parts fit the fields of the packed form.
pub record IsPackable (layer : SparseTernaryLayer) : Type 0 where
  pub shaped : IsShaped layer
  pub small_input : layer.input_dim < 2 ^ 32
  pub small_output : layer.output_dim < 2 ^ 32
  pub small_offsets : HasOffsets layer
  pub small_bias : All (λ b. in_i64 b ≡ true) layer.bias

slice_columns-part :
    (done row rest : List ℕ) (lo hi : ℕ)
    → length done ≡ lo
    → hi ≡ lo + length row
    → slice_columns lo hi (done ++ (row ++ rest)) ≡ ok row
unfolding slice_columns
slice_columns-part done row rest lo hi e1 e2 =
    let n = length-append done (row ++ rest) in
    let m = length-append row rest in
    let inside : (leb lo hi && leb hi (length (done ++ (row ++ rest)))) ≡ true =
      ground (arith, n, m) in
    let size : hi - lo ≡ length row = omega arith in
    rw (inside, size, sym e1, drop-length done (row ++ rest), take-length row rest) refl

offsets-head : (p : ℕ) (rows : List (List ℕ)) → get (offsets p rows) 0 ≡ some p
unfolding offsets
offsets-head p [] = refl
offsets-head p (row ∷ rows) = refl

unpack_rows-from :
    (pre done : List ℕ) (rows : List (List ℕ)) (p i : ℕ)
    → length pre ≡ i
    → length done ≡ p
    → unpack_rows (pre ++ offsets p rows) (done ++ flatten rows) i (length rows) ≡ ok rows
unfolding unpack_rows offsets flatten
unpack_rows-from pre done [] p i hi hp = refl
unpack_rows-from pre done (row ∷ rows) p i hi hp =
    let q = p + length row in
    let tail = offsets q rows in
    let lo : get (pre ++ p ∷ tail) i ≡ some p = get-append-right pre (p ∷ tail) i 0 (omega arith) in
    let hi' : get (pre ++ p ∷ tail) (suc i) ≡ some q =
      get-append-right pre (p ∷ tail) (suc i) 1 (omega arith) ∙ offsets-head q rows in
    let part = slice_columns-part done row (flatten rows) p q hp refl in
    let rest : unpack_rows (pre ++ p ∷ tail) (done ++ (row ++ flatten rows)) (suc i) (length rows)
        ≡ ok rows =
      rw (append_assoc pre (p ∷ []) tail, append_assoc done row (flatten rows)) at
        (unpack_rows-from (pre ++ p ∷ []) (done ++ row) rows q (suc i)
          (omega (arith, length-append pre (p ∷ []))) (omega (arith, length-append done row))) in
    rw (lo, hi', part, rest) refl

unpack_rows-offsets :
    (rows : List (List ℕ)) (n : ℕ)
    → length rows ≡ n
    → unpack_rows (offsets 0 rows) (flatten rows) 0 n ≡ ok rows
unpack_rows-offsets rows n e = rw (sym e) (unpack_rows-from [] [] rows 0 0 refl refl)

-- The packed layer, written with its offsets and columns.
unfoldable packed_layer : SparseTernaryLayer → Bytes → Bytes
packed_layer layer rest =
    to_be_bytes 4 layer.input_dim
    ++ (to_be_bytes 4 layer.output_dim
        ++ ((if layer.relu then 1 else 0)
            ∷ (to_be_bytes 8 (total_length layer.pos_indices)
                ++ (to_be_bytes 8 (total_length layer.neg_indices)
                    ++ (pack_row (offsets 0 layer.pos_indices)
                        ++ (pack_row (flatten layer.pos_indices)
                            ++ (pack_row (offsets 0 layer.neg_indices)
                                ++ (pack_row (flatten layer.neg_indices)
                                    ++ (pack_bias layer.bias ++ rest)))))))))

read_offsets :
    (rows : List (List ℕ)) (n : ℕ)
    → length rows ≡ n
    → total_length rows < 2 ^ 32
    → (rest : Bytes)
    → read_many (read_uint 4) (suc n) (pack_row (offsets 0 rows) ++ rest)
      ≡ ok (offsets 0 rows, rest)
read_offsets rows n e h rest =
    rw (length-offsets 0 rows, e) at
      (read_row (offsets 0 rows) (offsets-lt 0 rows (omega arith)) rest)

read_columns :
    (bound : ℕ) (rows : List (List ℕ))
    → bound ≤ 2 ^ 32
    → All (All (λ j. j < bound)) rows
    → (rest : Bytes)
    → read_many (read_uint 4) (total_length rows) (pack_row (flatten rows) ++ rest)
      ≡ ok (flatten rows, rest)
read_columns bound rows h all rest =
    rw (sym (length-flatten rows)) (read_row (flatten rows) (flatten-lt bound rows h all) rest)

relu-flag : (relu : Bool) → not ((if relu then 1 else 0) == 0) ≡ relu
relu-flag true = refl
relu-flag false = refl

read_flag : (x : ℕ) (rest : Bytes) → read_uint 1 (x ∷ rest) ≡ ok (x, rest)
unfolding read_uint from_be_digits
read_flag x rest =
    let one : 256 * 0 + x ≡ x = omega arith in rw (take_bytes-append 1 (x ∷ []) rest refl, one) refl

unpack_layer-packed :
    (layer : SparseTernaryLayer)
    → IsPackable layer
    → (rest : Bytes) → unpack_layer (packed_layer layer rest) ≡ ok (layer, rest)
unfolding unpack_layer packed_layer
unpack_layer-packed layer h rest =
    let s = h.shaped in
    let columns = read_columns layer.input_dim in
    let bias : (r : Bytes)
        → read_many read_i64 layer.output_dim (pack_bias layer.bias ++ r) ≡ ok (layer.bias, r) =
      λ r. rw (sym s.rows_bias) (read_bias layer.bias h.small_bias r) in
    rw
      (
        read_uint-append 4 layer.input_dim h.small_input,
        read_uint-append 4 layer.output_dim h.small_output,
        read_flag (if layer.relu then 1 else 0),
        read_uint-append 8 (total_length layer.pos_indices) (omega (arith, h.small_offsets)),
        read_uint-append 8 (total_length layer.neg_indices) (omega (arith, h.small_offsets)),
        read_offsets layer.pos_indices layer.output_dim s.rows_pos h.small_offsets.0,
        columns layer.pos_indices (omega (arith, h.small_input)) s.columns_pos,
        read_offsets layer.neg_indices layer.output_dim s.rows_neg h.small_offsets.1,
        columns layer.neg_indices (omega (arith, h.small_input)) s.columns_neg,
        bias,
        unpack_rows-offsets layer.pos_indices layer.output_dim s.rows_pos,
        unpack_rows-offsets layer.neg_indices layer.output_dim s.rows_neg,
        relu-flag layer.relu,
      )
      refl

pack_layer-packed :
    (layer : SparseTernaryLayer) → IsPackable layer → pack_layer layer ≡ ok (packed_layer layer [])
unfolding pack_layer packed_layer
pack_layer-packed layer h =
    let input_fits : layer.input_dim % 2 ^ 32 ≡ layer.input_dim = omega (arith, h.small_input) in
    let output_fits : layer.output_dim % 2 ^ 32 ≡ layer.output_dim =
      omega (arith, h.small_output) in
    simp (
      pack_offsets-offsets 0 layer.pos_indices (omega (arith, h.small_offsets)),
      pack_offsets-offsets 0 layer.neg_indices (omega (arith, h.small_offsets)),
      input_fits,
      output_fits,
      pack_columns-flatten,
      append-nil,
    )

packed_layer-append :
    (layer : SparseTernaryLayer) (rest : Bytes)
    → packed_layer layer [] ++ rest ≡ packed_layer layer rest
unfolding packed_layer
packed_layer-append layer rest = simp (append_assoc, append-nil)

pub packed_layers : List SparseTernaryLayer → Bytes
packed_layers [] = []
packed_layers (layer ∷ layers) = packed_layer layer (packed_layers layers)

pub pack_layers-packed :
    (layers : List SparseTernaryLayer)
    → All IsPackable layers
    → pack_layers layers ≡ ok (packed_layers layers)
unfolding pack_layers packed_layers
pack_layers-packed [] h = refl
pack_layers-packed (layer ∷ layers) h =
    rw
      (
        pack_layer-packed layer h.0,
        pack_layers-packed layers h.1,
        packed_layer-append layer (packed_layers layers),
      )
      refl

pub unpack_layers-packed :
    (layers : List SparseTernaryLayer)
    → All IsPackable layers
    → read_many unpack_layer (length layers) (packed_layers layers) ≡ ok (layers, [])
unfolding read_many packed_layers
unpack_layers-packed [] h = refl
unpack_layers-packed (layer ∷ layers) h =
    rw (unpack_layer-packed layer h.0 (packed_layers layers), unpack_layers-packed layers h.1) refl
