-- ===== src/Smt/Binding.antt =====
-- A root commits to one value for each key.
use transformer_vm_bank.Base.{
  ℕ, ◌+◌, ◌≡◌, refl, ◌⊎◌, inl, inr, true, List, [], ◌∷◌, ◌++◌, arith, length, All, append-injective,
  Bool-cases, sym, ◌∙◌,
}
use transformer_vm_bank.Bytes.{Bytes, bytes_eq_iff}
use transformer_vm_bank.Crypto.{
  Crypto, Laws, Collision, blake3-injective, hash_bytes, hash_concat, hash_three,
}
use transformer_vm_bank.Smt.{MerkleProof, bit, leaf_hash, parent_of, fold_proof, verify_proof}

module _ {c : Crypto} (l : Laws c) (key : Bytes) where
  length-leaf_hash : (v : Bytes) → length (leaf_hash c key v) ≡ 32
  unfolding leaf_hash hash_bytes hash_three
  length-leaf_hash [] = l.length-blake3 []
  length-leaf_hash (b ∷ v) = l.length-blake3 _

  length-fold_proof :
      (d : ℕ) (siblings : List Bytes) (leaf : Bytes)
      → length leaf ≡ 32
      → length (fold_proof c key d siblings leaf) ≡ 32
  unfolding fold_proof hash_concat
  length-fold_proof d [] leaf h = h
  length-fold_proof d (s ∷ siblings) leaf h = l.length-blake3 _

  -- Two parents with one hash have the same children, or show a collision.
  parent-injective :
      (d : ℕ) (s t x y : Bytes)
      → length s ≡ 32
      → length t ≡ 32
      → length x ≡ 32
      → length y ≡ 32
      → (let m = parent_of c key d s x in hash_concat c m.left m.right)
        ≡ (let n = parent_of c key d t y in hash_concat c n.left n.right)
      → (x ≡ y) ⊎ Collision c
  unfolding hash_concat
  parent-injective d s t x y hs ht hx hy e = elim (Bool-cases (bit key d)) [
    | inl right ↦ elim (blake3-injective c (s ++ x) (t ++ y) (rw right at e)) [
      | inl same ↦ inl (append-injective s t (hs ∙ sym ht) same).1
      | inr clash ↦ inr clash
    ]
    | inr left ↦ elim (blake3-injective c (x ++ s) (y ++ t) (rw left at e)) [
      | inl same ↦ inl (append-injective x y (hx ∙ sym hy) same).0
      | inr clash ↦ inr clash
    ]
  ]

  fold_proof-injective :
      (d : ℕ) (p q : List Bytes) (x y : Bytes)
      → length p ≡ length q
      → All (λ s. length s ≡ 32) p
      → All (λ s. length s ≡ 32) q
      → length x ≡ 32
      → length y ≡ 32
      → fold_proof c key d p x ≡ fold_proof c key d q y
      → (x ≡ y) ⊎ Collision c
  unfolding fold_proof
  fold_proof-injective d [] [] x y n hp hq hx hy e = inl e
  fold_proof-injective d [] (t ∷ q) x y n hp hq hx hy e = absurd (omega arith)
  fold_proof-injective d (s ∷ p) [] x y n hp hq hx hy e = absurd (omega arith)
  fold_proof-injective d (s ∷ p) (t ∷ q) x y n hp hq hx hy e =
      elim (parent-injective d s t _ _ hp.0 hq.0 (length-fold_proof (d + 1) p x hx)
        (length-fold_proof (d + 1) q y hy) e) [
          | inl below ↦ fold_proof-injective (d + 1) p q x y (omega arith) hp.1 hq.1 hx hy below
          | inr clash ↦ inr clash
        ]

  leaf_hash-injective :
      (v w : Bytes) → leaf_hash c key v ≡ leaf_hash c key w → (v ≡ w) ⊎ Collision c
  unfolding leaf_hash hash_bytes hash_three
  leaf_hash-injective [] [] e = inl refl
  leaf_hash-injective [] (b ∷ w) e = elim (blake3-injective c [] _ e) [
    | inl same ↦ cc
    | inr clash ↦ inr clash
  ]
  leaf_hash-injective (b ∷ v) [] e = elim (blake3-injective c _ [] e) [
    | inl same ↦ cc
    | inr clash ↦ inr clash
  ]
  leaf_hash-injective (b ∷ v) (d ∷ w) e = elim (blake3-injective c _ _ e) [
    | inr clash ↦ inr clash
    | inl same ↦
        let digest = (append-injective (0 ∷ key) (0 ∷ key) refl same).1 in
        blake3-injective c (b ∷ v) (d ∷ w) digest
  ]

-- The proofs whose siblings are 32 bytes long, as their type says.
pub record IsWire (p : MerkleProof) : Type 0 where
  pub sibling_lens : All (λ s. length s ≡ 32) p.siblings

-- Two proofs that verify against one root for one key carry the same value, or show a BLAKE3
-- collision: a root commits to one value, or to absence, for each key.
pub verify_proof_binding :
    {c : Crypto}
    → Laws c
    → (root key : Bytes) (p q : MerkleProof) → IsWire p
    → IsWire q
    → verify_proof c root key p ≡ true
    → verify_proof c root key q ≡ true
    → (p.value ≡ q.value) ⊎ Collision c
unfolding verify_proof
verify_proof_binding {c} l root key p q hp hq vp vq =
    let x = leaf_hash c key p.value in
    let y = leaf_hash c key q.value in
    elim (fold_proof-injective l key 0 p.siblings q.siblings x y (ground arith) hp.sibling_lens
      hq.sibling_lens (length-leaf_hash l key p.value) (length-leaf_hash l key q.value)
      (ground (
        arith,
        bytes_eq_iff (fold_proof c key 0 p.siblings x) root,
        bytes_eq_iff (fold_proof c key 0 q.siblings y) root,
      ))) [ inl same ↦ leaf_hash-injective l key p.value q.value same | inr clash ↦ inr clash ]
