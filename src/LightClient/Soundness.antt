-- ===== src/LightClient/Soundness.antt =====
-- What an answer of `verify_balance` is backed by.
use transformer_vm_bank.Base.{
  ℕ, ◌+◌, ◌≡◌, refl, sym, ap, ◌⊎◌, inl, inr, ◌∙◌, true, none, some, List, [], ◌∷◌, ok, >>=-eq-ok,
  arith,
}
use transformer_vm_bank.Bytes.{Bytes, bytes_eq_iff}
use transformer_vm_bank.Crypto.{Crypto, Laws, Collision}
use transformer_vm_bank.Smt.{MerkleProof, verify_proof}
use transformer_vm_bank.Smt.Binding
use transformer_vm_bank.Smt.Binding.{verify_proof_binding}
use transformer_vm_bank.LightClient.Header.{SignedHeader, verify_header, full_hash}
use transformer_vm_bank.LightClient.Verify.{
  check_link, check_headers, last_header, value_balance, verify_balance, signature_result,
}

module _ (c : Crypto) (signer : Bytes) where
  -- Every header is signed by the expected key, and names the full hash of the one before it.
  abbrev pub Chained : Bytes → List SignedHeader → Type 0
  Chained before [] = Unit
  Chained before (s ∷ headers) =
      (s.header.parent_hash ≡ before)
      × (verify_header c signer s ≡ ok tt)
      × Chained (full_hash c s) headers

  abbrev pub IsChain : Bytes → List SignedHeader → Type 0
  IsChain genesis_root [] = Unit
  IsChain genesis_root (s ∷ headers) =
      (s.header.prev_state_root ≡ genesis_root)
      × (verify_header c signer s ≡ ok tt)
      × Chained (full_hash c s) headers

  check_headers-Chained :
      (genesis_root : Bytes) (i : ℕ) (before : Bytes) (headers : List SignedHeader)
      → check_headers c genesis_root signer i (some before) headers ≡ ok tt
      → Chained before headers
  unfolding check_headers check_link
  check_headers-Chained genesis_root i before [] e = tt
  check_headers-Chained genesis_root i before (s ∷ headers) e =
      let (_, linked, e1) = >>=-eq-ok (check_link genesis_root i (some before) s) _ e in
      let (_, signed, rest) =
        >>=-eq-ok (signature_result s.header.block_n (verify_header c signer s)) _ e1 in
      (
        ground (arith, bytes_eq_iff s.header.parent_hash before),
        ground arith,
        check_headers-Chained genesis_root (i + 1) (full_hash c s) headers rest,
      )

  -- An answer is backed by a chain of signed headers from the genesis root, in which every header
  -- names the full hash of the one before it, by a Merkle proof against the last state root, and is
  -- the balance of the proved value.
  pub verify_balance-IsChain :
      (genesis_root : Bytes) (headers : List SignedHeader) (account : Bytes) (p : MerkleProof)
      (n : ℕ)
      → verify_balance c genesis_root headers signer account p ≡ ok n
      → (s : SignedHeader) × (rest : List SignedHeader) × (headers ≡ s ∷ rest)
        × IsChain genesis_root headers
        × (verify_proof c (last_header s rest).header.new_state_root account p ≡ true)
        × (n ≡ value_balance p.value)
  unfolding verify_balance check_headers check_link
  verify_balance-IsChain genesis_root [] account p n e = cc
  verify_balance-IsChain genesis_root (s ∷ rest) account p n e =
      let (_, checked, e1) =
        >>=-eq-ok (check_headers c genesis_root signer 0 none (s ∷ rest)) _ e in
      let (_, linked, e2) = >>=-eq-ok (check_link genesis_root 0 none s) _ checked in
      let (_, signed, chained) =
        >>=-eq-ok (signature_result s.header.block_n (verify_header c signer s)) _ e2 in
      (
        s,
        rest,
        refl,
        (
          ground (arith, bytes_eq_iff s.header.prev_state_root genesis_root),
          ground arith,
          check_headers-Chained genesis_root (0 + 1) (full_hash c s) rest chained,
        ),
        ground arith,
        ground arith,
      )

  -- On one chain of headers the balance of an account has one answer, whatever proofs are shown,
  -- unless the proofs show a BLAKE3 collision.
  pub verify_balance_unique :
      Laws c
      → (genesis_root : Bytes) (headers : List SignedHeader) (account : Bytes) (p q : MerkleProof)
        (m n : ℕ)
      → Binding.IsWire p
      → Binding.IsWire q
      → verify_balance c genesis_root headers signer account p ≡ ok m
      → verify_balance c genesis_root headers signer account q ≡ ok n
      → (m ≡ n) ⊎ Collision c
  verify_balance_unique l genesis_root headers account p q m n hp hq em en =
      let (s, rest, shape, _, vp, bm) =
        verify_balance-IsChain genesis_root headers account p m em in
      let (t, rest', shape', _, vq, bn) =
        verify_balance-IsChain genesis_root headers account q n en in
      let same_root : (last_header t rest').header.new_state_root
          ≡ (last_header s rest).header.new_state_root =
        ground arith in
      elim (verify_proof_binding l (last_header s rest).header.new_state_root account p q hp hq vp
        (rw same_root at vq)) [
          | inl value ↦ inl (bm ∙ ap value_balance value ∙ sym bn)
          | inr clash ↦ inr clash
        ]
