-- ===== src/Ternary/Network/Bounds.antt =====
-- When the kernel of ternary_vm/src/network.rs cannot overflow: the bias and the weights of a row
-- bound what it accumulates.
use transformer_vm_bank.Base.{
  ℕ, zero, suc, ◌+◌, ◌*◌, ◌^◌, ◌≤◌, ◌<◌, ◌≡◌, refl, sym, ap, List, [], ◌∷◌, map, arith, length, get,
  get_or, range, All, ok, replicate, length-replicate, some, ==_iff,
}
use transformer_vm_bank.Int.{
  ℤ, pos, ◌+ℤ◌, ◌-ℤ◌, +ℤ_zero, -ℤ_zero, +ℤ_assoc, -ℤ_assoc, +ℤ_pos, +ℤ_neg, -ℤ_pos, -ℤ_neg,
  checked_add-small, checked_sub-small,
}
use transformer_vm_bank.Ternary.Network.{
  SparseTernaryLayer, add_columns, sub_columns, activate, forward_row, forward_rows, forward_layer,
  TernaryNetwork, forward, forward_layers, check_input,
}
use transformer_vm_bank.Ternary.Network.Kernel.{magnitude, sum_at, dot, apply}

-- The invariants that the type's documentation lists, less the disjointness of the two lists.
pub record IsShaped (layer : SparseTernaryLayer) : Type 0 where
  pub rows_pos : length layer.pos_indices ≡ layer.output_dim
  pub rows_neg : length layer.neg_indices ≡ layer.output_dim
  pub rows_bias : length layer.bias ≡ layer.output_dim
  pub columns_pos : All (All (λ j. j < layer.input_dim)) layer.pos_indices
  pub columns_neg : All (All (λ j. j < layer.input_dim)) layer.neg_indices

-- No row can leave the range of an i64 on entries of magnitude up to `bound`.
unfoldable pub HasRoom : SparseTernaryLayer → ℕ → Type 0
HasRoom layer bound =
    (i : ℕ)
    → i < layer.output_dim
    → magnitude (get_or layer.bias i (pos 0))
        + bound * (length (get_or layer.pos_indices i []) + length (get_or layer.neg_indices i []))
      < 2 ^ 63

pub get-lt {ℓ} :
    {A : Type ℓ} (xs : List A) (i : ℕ) (d : A) → i < length xs → get xs i ≡ some (get_or xs i d)
get-lt [] i d h = absurd (omega arith)
get-lt (x ∷ xs) zero d h = refl
get-lt (x ∷ xs) (suc i) d h = get-lt xs i d (omega arith)

pub All-get_or {ℓ κ} :
    {A : Type ℓ} (P : A → Type κ) (xs : List A) (i : ℕ) (d : A)
    → i < length xs
    → All P xs
    → P (get_or xs i d)
All-get_or P [] i d h all = absurd (omega arith)
All-get_or P (x ∷ xs) zero d h all = all.0
All-get_or P (x ∷ xs) (suc i) d h all = All-get_or P xs i d (omega arith) all.1

module _ (layer_idx row : ℕ) (x : List ℤ) (bound : ℕ)
    (small : All (λ v. magnitude v ≤ bound) x) where
  add_columns-total :
      (columns : List ℕ) (acc : ℤ)
      → All (λ j. j < length x) columns
      → magnitude acc + bound * length columns < 2 ^ 63
      → add_columns layer_idx row x acc columns ≡ ok (acc +ℤ sum_at x columns)
  unfolding add_columns sum_at
  add_columns-total [] acc within room = ap ok (sym (+ℤ_zero acc))
  add_columns-total (j ∷ columns) acc within room =
      let v = get_or x j (pos 0) in
      let entry_small : magnitude v ≤ bound =
        All-get_or (λ w. magnitude w ≤ bound) x j (pos 0) (within.0) small in
      let step = checked_add-small acc v (omega arith) in
      let rest =
        add_columns-total columns (acc +ℤ v) within.1 (omega (arith, +ℤ_pos acc v, +ℤ_neg acc v)) in
      rw (get-lt x j (pos 0) within.0, step, rest, +ℤ_assoc acc v (sum_at x columns)) refl

  sub_columns-total :
      (columns : List ℕ) (acc : ℤ)
      → All (λ j. j < length x) columns
      → magnitude acc + bound * length columns < 2 ^ 63
      → sub_columns layer_idx row x acc columns ≡ ok (acc -ℤ sum_at x columns)
  unfolding sub_columns sum_at
  sub_columns-total [] acc within room = ap ok (sym (-ℤ_zero acc))
  sub_columns-total (j ∷ columns) acc within room =
      let v = get_or x j (pos 0) in
      let entry_small : magnitude v ≤ bound =
        All-get_or (λ w. magnitude w ≤ bound) x j (pos 0) (within.0) small in
      let step = checked_sub-small acc v (omega arith) in
      let rest =
        sub_columns-total columns (acc -ℤ v) within.1 (omega (arith, -ℤ_pos acc v, -ℤ_neg acc v)) in
      rw (get-lt x j (pos 0) within.0, step, rest, -ℤ_assoc acc v (sum_at x columns)) refl

  -- The sum of a row's columns is at most `bound` for each.
  magnitude-sum_at :
      (columns : List ℕ)
      → All (λ j. j < length x) columns
      → magnitude (sum_at x columns) ≤ bound * length columns
  unfolding sum_at
  magnitude-sum_at [] within = omega arith
  magnitude-sum_at (j ∷ columns) within =
      let v = get_or x j (pos 0) in
      let entry_small : magnitude v ≤ bound =
        All-get_or (λ w. magnitude w ≤ bound) x j (pos 0) (within.0) small in
      omega (
        arith,
        +ℤ_pos v (sum_at x columns),
        +ℤ_neg v (sum_at x columns),
        magnitude-sum_at columns within.1,
      )

-- One row, from what stands at its index in the three lists.
pub forward_row-of :
    (layer : SparseTernaryLayer) (x : List ℤ) (bound layer_idx i : ℕ) (start : ℤ)
    (pos_row neg_row : List ℕ)
    → get layer.bias i ≡ some start
    → get layer.pos_indices i ≡ some pos_row
    → get layer.neg_indices i ≡ some neg_row
    → All (λ v. magnitude v ≤ bound) x
    → All (λ j. j < length x) pos_row
    → All (λ j. j < length x) neg_row
    → magnitude start + bound * (length pos_row + length neg_row) < 2 ^ 63
    → forward_row layer x layer_idx i
      ≡ ok (activate layer.relu (start +ℤ sum_at x pos_row -ℤ sum_at x neg_row))
unfolding forward_row
forward_row-of layer x bound layer_idx i start pos_row neg_row at_bias at_pos at_neg small
      within_pos within_neg room =
    let sum = sum_at x pos_row in
    let added =
      add_columns-total layer_idx i x bound small pos_row start within_pos (omega arith) in
    let subtracted = sub_columns-total layer_idx i x bound small neg_row (start +ℤ sum) within_neg (
      omega (
        arith,
        +ℤ_pos start sum,
        +ℤ_neg start sum,
        magnitude-sum_at layer_idx i x bound small pos_row within_pos,
      )) in
    rw (at_bias, at_pos, added, at_neg, subtracted) refl

module _ (layer : SparseTernaryLayer) (x : List ℤ) (f : ℕ → ℤ) (layer_idx : ℕ) where
  forward_rows-of :
      (i n : ℕ)
      → ((k : ℕ) → i ≤ k → k < i + n → forward_row layer x layer_idx k ≡ ok (f k))
      → forward_rows layer x layer_idx i n ≡ ok (map f (range i n))
  unfolding forward_rows
  forward_rows-of i zero rows = refl
  forward_rows-of i (suc n) rows =
      let first = rows i (omega arith) (omega arith) in
      let rest = forward_rows-of (suc i) n (λ k lo hi. rows k (omega arith) (omega arith)) in
      rw (first, rest) refl

  -- A layer, from its rows.
  pub forward_layer-of :
      (y : List ℤ)
      → length x ≡ layer.input_dim
      → length y ≡ layer.output_dim
      → ((k : ℕ) → k < layer.output_dim → forward_row layer x layer_idx k ≡ ok (f k))
      → forward_layer layer x y layer_idx ≡ ok (map f (range 0 layer.output_dim))
  unfolding forward_layer
  forward_layer-of y fits room rows =
      let computed = forward_rows-of 0 (length y) (λ k lo hi. rows k (omega arith)) in
      simp
        (
          (==_iff (length x) layer.input_dim).1 fits,
          (==_iff (length y) layer.output_dim).1 room,
          computed,
        )
        (ap (λ n. ok (map f (range 0 n))) room)

-- A network, from its layers: the fresh vector that a layer writes into has the right length.
pub forward_layers-step :
    (layer : SparseTernaryLayer) (layers : List SparseTernaryLayer) (li : ℕ) (x : List ℤ)
    {next : List ℤ}
    → ((y : List ℤ) → length y ≡ layer.output_dim → forward_layer layer x y li ≡ ok next)
    → forward_layers (layer ∷ layers) li x ≡ forward_layers layers (suc li) next
unfolding forward_layers
forward_layers-step layer layers li x gives =
    rw (gives (replicate layer.output_dim (pos 0)) (length-replicate layer.output_dim (pos 0))) refl

pub forward-fits :
    (net : TernaryNetwork) (layer : SparseTernaryLayer) (layers : List SparseTernaryLayer)
    (x : List ℤ)
    → net.layers ≡ layer ∷ layers
    → length x ≡ layer.input_dim
    → forward net x ≡ forward_layers (layer ∷ layers) 0 x
unfolding forward check_input
forward-fits net layer layers x built fits =
    simp (built, (==_iff (length x) layer.input_dim).1 fits)

module _ (layer : SparseTernaryLayer) (x : List ℤ) (bound : ℕ) (shaped : IsShaped layer)
    (fits : length x ≡ layer.input_dim) (small : All (λ v. magnitude v ≤ bound) x)
    (room : HasRoom layer bound) where
  within :
      (rows : List (List ℕ)) (i : ℕ)
      → i < length rows
      → All (All (λ j. j < layer.input_dim)) rows
      → All (λ j. j < length x) (get_or rows i [])
  within rows i h columns =
      rw fits (All-get_or (All (λ j. j < layer.input_dim)) rows i [] h columns)

  forward_row-total :
      (layer_idx i : ℕ)
      → i < layer.output_dim
      → forward_row layer x layer_idx i ≡ ok (activate layer.relu (dot layer x i))
  unfolding dot HasRoom
  forward_row-total layer_idx i h =
      let in_pos : i < length layer.pos_indices = omega (arith, shaped.rows_pos) in
      let in_neg : i < length layer.neg_indices = omega (arith, shaped.rows_neg) in
      forward_row-of layer x bound layer_idx i (get_or layer.bias i (pos 0))
        (get_or layer.pos_indices i []) (get_or layer.neg_indices i [])
        (get-lt layer.bias i (pos 0) (omega (arith, shaped.rows_bias)))
        (get-lt layer.pos_indices i [] in_pos) (get-lt layer.neg_indices i [] in_neg) small
        (within layer.pos_indices i in_pos shaped.columns_pos)
        (within layer.neg_indices i in_neg shaped.columns_neg) (room i h)

  -- A layer of the documented shape, with room for its input, returns its matrix-vector product:
  -- neither an overflow nor an index outside a vector is possible.
  pub forward_layer-total :
      (y : List ℤ) (layer_idx : ℕ)
      → length y ≡ layer.output_dim
      → forward_layer layer x y layer_idx ≡ ok (apply layer x)
  unfolding apply
  forward_layer-total y layer_idx h =
      forward_layer-of layer x (λ k. activate layer.relu (dot layer x k)) layer_idx y fits h
        (forward_row-total layer_idx)
