-- ===== src/Ternary/Network/Kernel.antt =====
-- The kernel of ternary_vm/src/network.rs against the integer sums that its rows stand for.
use transformer_vm_bank.Base.{
  ℕ, zero, suc, ◌+◌, ◌≡◌, refl, sym, List, [], ◌∷◌, map, length, get_or, range, ok, >>=-eq-ok,
  ok_or-eq-ok, require, require-eq-ok, ◌==◌, ==_iff,
}
use transformer_vm_bank.Int.{
  ℤ, pos, pos_part, neg_part, ◌+ℤ◌, ◌-ℤ◌, +ℤ_zero, -ℤ_zero, +ℤ_assoc, -ℤ_assoc, checked_add-exact,
  checked_sub-exact,
}
use transformer_vm_bank.Ternary.Network.{
  SparseTernaryLayer, index, add_columns, sub_columns, activate, forward_row, forward_rows,
  forward_layer, TernaryNetwork, forward, forward_layers, check_input,
}

-- The sum of the entries of `x` at the given columns.
unfoldable pub sum_at : List ℤ → List ℕ → ℤ
sum_at x [] = pos 0
sum_at x (j ∷ columns) = get_or x j (pos 0) +ℤ sum_at x columns

-- `|z|`
abbrev pub magnitude : ℤ → ℕ
magnitude z = pos_part z + neg_part z

-- Row `i` of the layer's matrix times `x`, with its bias.
unfoldable pub dot : SparseTernaryLayer → List ℤ → ℕ → ℤ
dot layer x i =
    get_or layer.bias i (pos 0)
    +ℤ sum_at x (get_or layer.pos_indices i [])
    -ℤ sum_at x (get_or layer.neg_indices i [])

-- The layer as a function on vectors of integers.
unfoldable pub apply : SparseTernaryLayer → List ℤ → List ℤ
apply layer x = map (λ k. activate layer.relu (dot layer x k)) (range 0 layer.output_dim)

unfoldable pub apply_all : List SparseTernaryLayer → List ℤ → List ℤ
apply_all [] x = x
apply_all (layer ∷ layers) x = apply_all layers (apply layer x)

index-eq-ok {ℓ} :
    {A : Type ℓ} (xs : List A) (i : ℕ) {a : A} → index xs i ≡ ok a → (d : A) → get_or xs i d ≡ a
index-eq-ok [] i e d = cc
index-eq-ok (x ∷ xs) zero e d = cc
index-eq-ok (x ∷ xs) (suc i) e d = index-eq-ok xs i e d

module _ (layer_idx row : ℕ) (x : List ℤ) where
  add_columns-exact :
      (columns : List ℕ) (acc : ℤ) {v : ℤ}
      → add_columns layer_idx row x acc columns ≡ ok v
      → v ≡ acc +ℤ sum_at x columns
  unfolding add_columns sum_at
  add_columns-exact [] acc {v} e = let same : acc ≡ v = cc in rw (same, +ℤ_zero v) refl
  add_columns-exact (j ∷ columns) acc {v} e =
      let (a, read, e1) = >>=-eq-ok (index x j) _ e in
      let (next, added, e2) = >>=-eq-ok _ _ e1 in
      let sum = checked_add-exact acc a (ok_or-eq-ok _ _ added) in
      let entry = index-eq-ok x j read (pos 0) in
      rw (add_columns-exact columns next e2, sum, entry) (+ℤ_assoc acc a (sum_at x columns))

  sub_columns-exact :
      (columns : List ℕ) (acc : ℤ) {v : ℤ}
      → sub_columns layer_idx row x acc columns ≡ ok v
      → v ≡ acc -ℤ sum_at x columns
  unfolding sub_columns sum_at
  sub_columns-exact [] acc {v} e = let same : acc ≡ v = cc in rw (same, -ℤ_zero v) refl
  sub_columns-exact (j ∷ columns) acc {v} e =
      let (a, read, e1) = >>=-eq-ok (index x j) _ e in
      let (next, subtracted, e2) = >>=-eq-ok _ _ e1 in
      let difference = checked_sub-exact acc a (ok_or-eq-ok _ _ subtracted) in
      let entry = index-eq-ok x j read (pos 0) in
      rw (sub_columns-exact columns next e2, difference, entry) (-ℤ_assoc acc a (sum_at x columns))

forward_row-exact :
    (layer : SparseTernaryLayer) (x : List ℤ) (layer_idx i : ℕ) {v : ℤ}
    → forward_row layer x layer_idx i ≡ ok v
    → v ≡ activate layer.relu (dot layer x i)
unfolding forward_row dot
forward_row-exact layer x layer_idx i {v} e =
    let (start, at_bias, e1) = >>=-eq-ok (index layer.bias i) _ e in
    let (pos_row, at_pos, e2) = >>=-eq-ok (index layer.pos_indices i) _ e1 in
    let (acc, added, e3) = >>=-eq-ok _ _ e2 in
    let (neg_row, at_neg, e4) = >>=-eq-ok (index layer.neg_indices i) _ e3 in
    let (end, subtracted, e5) = >>=-eq-ok _ _ e4 in
    let sum = add_columns-exact layer_idx i x pos_row start added in
    let difference = sub_columns-exact layer_idx i x neg_row acc subtracted in
    let last : v ≡ activate layer.relu end = cc in
    rw
      (
        last,
        difference,
        sum,
        index-eq-ok layer.bias i at_bias (pos 0),
        index-eq-ok layer.pos_indices i at_pos [],
        index-eq-ok layer.neg_indices i at_neg [],
      )
      refl

forward_rows-exact :
    (layer : SparseTernaryLayer) (x : List ℤ) (layer_idx i n : ℕ) {ys : List ℤ}
    → forward_rows layer x layer_idx i n ≡ ok ys
    → ys ≡ map (λ k. activate layer.relu (dot layer x k)) (range i n)
unfolding forward_rows
forward_rows-exact layer x layer_idx i zero e = cc
forward_rows-exact layer x layer_idx i (suc n) {ys} e =
    let (y_i, row, e1) = >>=-eq-ok (forward_row layer x layer_idx i) _ e in
    let (rest, rows, e2) = >>=-eq-ok (forward_rows layer x layer_idx (suc i) n) _ e1 in
    let first = forward_row-exact layer x layer_idx i row in
    let others = forward_rows-exact layer x layer_idx (suc i) n rows in cc

-- A layer that returns has computed its matrix-vector product over the integers, with its biases
-- and its activation: no addition and no subtraction has wrapped around.
pub forward_layer-exact :
    (layer : SparseTernaryLayer) (x y : List ℤ) (layer_idx : ℕ) {ys : List ℤ}
    → forward_layer layer x y layer_idx ≡ ok ys
    → ys ≡ apply layer x
unfolding forward_layer apply dot
forward_layer-exact layer x y layer_idx {ys} e =
    let (u, fits, e1) = >>=-eq-ok (require (length x == layer.input_dim) _) _ e in
    let (w, room, e2) = >>=-eq-ok (require (length y == layer.output_dim) _) _ e1 in
    let same : length y ≡ layer.output_dim =
      (==_iff (length y) layer.output_dim).0 (require-eq-ok _ _ room) in
    rw (sym same) (forward_rows-exact layer x layer_idx 0 (length y) e2)

forward_layers-exact :
    (layers : List SparseTernaryLayer) (li : ℕ) (x : List ℤ) {ys : List ℤ}
    → forward_layers layers li x ≡ ok ys
    → ys ≡ apply_all layers x
unfolding forward_layers apply_all
forward_layers-exact [] li x e = cc
forward_layers-exact (layer ∷ layers) li x {ys} e =
    let (next, layer_done, e1) = >>=-eq-ok (forward_layer layer x _ li) _ e in
    let this = forward_layer-exact layer x _ li layer_done in
    rw (sym this) (forward_layers-exact layers (suc li) next e1)

-- A network that returns has computed the composition of its layers over the integers, each a
-- matrix-vector product with biases and activation: no addition or subtraction has wrapped around.
pub forward-exact :
    (network : TernaryNetwork) (input : List ℤ) {ys : List ℤ}
    → forward network input ≡ ok ys
    → ys ≡ apply_all network.layers input
unfolding forward
forward-exact network input e =
    let (u, fits, e1) = >>=-eq-ok (check_input network.layers input) _ e in
    forward_layers-exact network.layers 0 input e1
