-- ===== src/Ternary/Network.antt =====
-- ternary_vm/src/network.rs: sparse ternary layers, the forward kernel and argmax. A row lists the
-- columns of weight +1 and those of weight -1; every addition and subtraction is checked.
pub mod Kernel
pub mod Bounds
pub mod Argmax
use transformer_vm_bank.Base.{
  ℕ, zero, suc, ◌+◌, ◌*◌, Bool, true, false, ◌&&◌, ◌||◌, not, Option, none, some, List, [], ◌∷◌,
  map, arith, ◌==◌, if◌then◌else◌, leb, length, get, replicate, Result, ok, err, ◌>>=◌, ◌>>◌,
  require, refuse_if, ok_or,
}
use transformer_vm_bank.Int.{ℤ, pos, negsuc, ltb_ℤ, checked_add, checked_sub}
use transformer_vm_bank.Bytes.{Bytes}
use transformer_vm_bank.Ternary.Errors.{
  TernaryError, overflow, input_shape, layer_shape, empty_argmax, Failure, returned,
  index_out_of_bounds,
}

pub record SparseTernaryLayer : Type 0 where
  pub input_dim : ℕ
  pub output_dim : ℕ
  pub pos_indices : List (List ℕ)
  pub neg_indices : List (List ℕ)
  pub bias : List ℤ
  pub relu : Bool

-- `xs[i]`
abbrev pub index {ℓ} : {A : Type ℓ} → List A → ℕ → Result Failure A
index xs i = ok_or (get xs i) index_out_of_bounds

-- `for &j in &self.pos_indices[i] { acc = acc.checked_add(x[j])...? }`
unfoldable pub add_columns : (layer_idx row : ℕ) → List ℤ → ℤ → List ℕ → Result Failure ℤ
add_columns layer_idx row x acc [] = ok acc
add_columns layer_idx row x acc (j ∷ columns) = do
  v ← index x j
  acc ← ok_or (checked_add acc v) (returned (overflow layer_idx row))
  add_columns layer_idx row x acc columns

unfoldable pub sub_columns : (layer_idx row : ℕ) → List ℤ → ℤ → List ℕ → Result Failure ℤ
sub_columns layer_idx row x acc [] = ok acc
sub_columns layer_idx row x acc (j ∷ columns) = do
  v ← index x j
  acc ← ok_or (checked_sub acc v) (returned (overflow layer_idx row))
  sub_columns layer_idx row x acc columns

-- `if self.relu && acc < 0 { 0 } else { acc }`
unfoldable pub activate : Bool → ℤ → ℤ
activate relu acc = if relu && ltb_ℤ acc (pos 0) then pos 0 else acc

unfoldable pub forward_row : SparseTernaryLayer → List ℤ → (layer_idx i : ℕ) → Result Failure ℤ
forward_row layer x layer_idx i = do
  start ← index layer.bias i
  pos_row ← index layer.pos_indices i
  acc ← add_columns layer_idx i x start pos_row
  neg_row ← index layer.neg_indices i
  acc ← sub_columns layer_idx i x acc neg_row
  ok (activate layer.relu acc)

-- The rows from `i` on, `n` of them.
unfoldable pub forward_rows :
    SparseTernaryLayer → List ℤ → (layer_idx i n : ℕ) → Result Failure (List ℤ)
forward_rows layer x layer_idx i zero = ok []
forward_rows layer x layer_idx i (suc n) = do
  y_i ← forward_row layer x layer_idx i
  rest ← forward_rows layer x layer_idx (suc i) n
  ok (y_i ∷ rest)

-- `SparseTernaryLayer::forward`: the result is what it writes into `y`.
unfoldable pub forward_layer :
    SparseTernaryLayer → (x y : List ℤ) → (layer_idx : ℕ) → Result Failure (List ℤ)
forward_layer layer x y layer_idx = do
  require (length x == layer.input_dim)
      (returned (layer_shape layer_idx (length x) layer.input_dim))
  require (length y == layer.output_dim)
      (returned (layer_shape layer_idx (length y) layer.output_dim))
  forward_rows layer x layer_idx 0 (length y)

abbrev pub total_length : List (List ℕ) → ℕ
total_length [] = 0
total_length (row ∷ rows) = length row + total_length rows

unfoldable pub nnz : SparseTernaryLayer → ℕ
nnz layer = total_length layer.pos_indices + total_length layer.neg_indices

-- `WeightsHeader` of ternary_vm/src/weights.rs.
pub record WeightsHeader : Type 0 where
  pub version : ℕ
  pub primitive : Bytes
  pub input_dim : ℕ
  pub output_dim : ℕ
  pub weights_hash : Bytes
  pub weights_hash_v2 : Bytes

pub record TernaryNetwork : Type 0 where
  pub header : WeightsHeader
  pub layers : List SparseTernaryLayer

unfoldable pub forward_layers : List SparseTernaryLayer → ℕ → List ℤ → Result Failure (List ℤ)
forward_layers [] li current = ok current
forward_layers (layer ∷ layers) li current = do
  next ← forward_layer layer current (replicate layer.output_dim (pos 0)) li
  forward_layers layers (suc li) next

-- `self.layers.is_empty()` and `self.layers[0].input_dim` are the two clauses.
unfoldable pub check_input : List SparseTernaryLayer → List ℤ → Result Failure (Unit {0})
check_input [] input = ok tt
check_input (layer ∷ layers) input =
    require (length input == layer.input_dim)
      (returned (input_shape (length input) layer.input_dim))

unfoldable pub forward : TernaryNetwork → List ℤ → Result Failure (List ℤ)
forward network input = do check_input network.layers input; forward_layers network.layers 0 input

-- `(0..=max).contains(&v)`
unfoldable pub within : ℕ → ℤ → Bool
within max (pos n) = leb n max
within max (negsuc n) = false

unfoldable pub total_nnz : List SparseTernaryLayer → ℕ
total_nnz [] = 0
total_nnz (layer ∷ layers) = nnz layer + total_nnz layers

-- The loop of `argmax` from index `i` on, with the best index and value so far, if any.
unfoldable pub argmax_from : ℕ → Option (ℕ × ℤ) → List ℤ → Option (ℕ × ℤ)
argmax_from i best [] = best
argmax_from i none (v ∷ logits) = argmax_from (suc i) (some (i, v)) logits
argmax_from i (some best) (v ∷ logits) =
    argmax_from (suc i) (if ltb_ℤ best.1 v then some (i, v) else some best) logits

unfoldable pub argmax : List ℤ → Result Failure ℕ
argmax logits = do best ← ok_or (argmax_from 0 none logits) (returned empty_argmax); ok best.0
