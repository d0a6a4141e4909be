-- ===== src/Smt.antt =====
-- crypto/src/smt.rs: the sparse Merkle tree over 256-bit keys. The loops over the depth are
-- recursions on the depths that are left.
pub mod Binding
mod Tests
use transformer_vm_bank.Base.{
  ℕ, zero, suc, ◌+◌, ◌-◌, ◌/◌, ◌%◌, ◌^◌, Bool, true, false, Option, none, some, List, [], ◌∷◌,
  length, get_or, drop, is_empty, ◌==◌, if◌then◌else◌, ◌&&◌,
}
use transformer_vm_bank.Bytes.{Bytes, bytes_eq}
use transformer_vm_bank.Dict.{Dict, lookup, insert, remove}
use transformer_vm_bank.Crypto.{Crypto, hash_bytes, hash_concat, hash_three}

abbrev pub key_bits : ℕ
key_bits = 256

abbrev head_or_empty : List Bytes → Bytes
head_or_empty [] = []
head_or_empty (d ∷ ds) = d

-- `InternalNode`
pub record InternalNode : Type 0 where
  pub left : Bytes
  pub right : Bytes

pub record SparseMerkleTree : Type 0 where
  pub nodes : Dict InternalNode
  pub leaves : Dict Bytes
  pub root : Bytes
  pub defaults : List Bytes

pub record MerkleProof : Type 0 where
  pub siblings : List Bytes
  pub value : Bytes

-- `(key[i / 8] >> (7 - i % 8)) & 1 == 1`
unfoldable pub bit : Bytes → ℕ → Bool
bit key i = (get_or key (i / 8) 0 / 2 ^ (7 - i % 8)) % 2 == 1

module _ (c : Crypto) where
  -- The last `n + 1` entries of `default_hashes()`.
  unfoldable pub defaults_from : ℕ → List Bytes
  defaults_from zero = hash_bytes c [] ∷ []
  defaults_from (suc n) =
      let below = defaults_from n in
      hash_concat c (head_or_empty below) (head_or_empty below) ∷ below

  unfoldable pub default_hashes : List Bytes
  default_hashes = defaults_from key_bits

  unfoldable pub new : SparseMerkleTree
  new = record {
    nodes = [];
    leaves = [];
    root = get_or default_hashes 0 [];
    defaults = default_hashes;
  }

  unfoldable pub leaf_hash : Bytes → Bytes → Bytes
  leaf_hash key value =
      if is_empty value then hash_bytes c [] else hash_three c (0 ∷ []) key (hash_bytes c value)

  -- The body of the loops of `put` and `verify_proof`: the parent of `current` beside its sibling.
  abbrev pub parent_of : Bytes → ℕ → Bytes → Bytes → InternalNode
  parent_of key d sibling current =
      if bit key d
      then record { left = sibling; right = current }
      else record { left = current; right = sibling }

  -- The loop of `put` from the deepest of the siblings up to depth `d`: the hash at depth `d` and the
  -- node store.
  unfoldable pub climb :
      Bytes → ℕ → List Bytes → Bytes → Dict InternalNode → Bytes × Dict InternalNode
  climb key d [] leaf nodes = (leaf, nodes)
  climb key d (sibling ∷ siblings) leaf nodes =
      let (current, nodes') = climb key (d + 1) siblings leaf nodes in
      let n = parent_of key d sibling current in
      let parent = hash_concat c n.left n.right in (parent, insert parent n nodes')

  -- The loop of `verify_proof`.
  unfoldable pub fold_proof : Bytes → ℕ → List Bytes → Bytes → Bytes
  fold_proof key d [] leaf = leaf
  fold_proof key d (sibling ∷ siblings) leaf =
      let n = parent_of key d sibling (fold_proof key (d + 1) siblings leaf) in
      hash_concat c n.left n.right

  unfoldable pub verify_proof : Bytes → Bytes → MerkleProof → Bool
  verify_proof root key p =
      if length p.siblings == key_bits
      then bytes_eq (fold_proof key 0 p.siblings (leaf_hash key p.value)) root
      else false

-- The loop of `compute_path_to_leaf` from depth `d`, with `n` depths left.
unfoldable pub walk : Dict InternalNode → List Bytes → Bytes → ℕ → ℕ → Bytes → List Bytes
walk nodes defaults key zero d current = []
walk nodes defaults key (suc n) d current = elim (lookup current nodes) [
  | none ↦ drop (d + 1) defaults
  | some node ↦ elim (bit key d) [
    | true ↦ node.left ∷ walk nodes defaults key n (d + 1) node.right
    | false ↦ node.right ∷ walk nodes defaults key n (d + 1) node.left
  ]
]

unfoldable pub compute_path_to_leaf : SparseMerkleTree → Bytes → List Bytes
compute_path_to_leaf t key = walk t.nodes t.defaults key key_bits 0 t.root

unfoldable pub get : SparseMerkleTree → Bytes → Option Bytes
get t key = lookup key t.leaves

module _ (c : Crypto) where
  unfoldable pub put : Bytes → Bytes → SparseMerkleTree → SparseMerkleTree
  put key value t =
      let (root, nodes) =
        climb c key 0 (compute_path_to_leaf t key) (leaf_hash c key value) t.nodes in
      record t {
        nodes = nodes;
        leaves = if is_empty value then remove key t.leaves else insert key value t.leaves;
        root = root;
      }

abbrev or_empty : Option Bytes → Bytes
or_empty none = []
or_empty (some v) = v

unfoldable pub proof : SparseMerkleTree → Bytes → MerkleProof
proof t key = record {
  siblings = compute_path_to_leaf t key;
  value = or_empty (lookup key t.leaves);
}
