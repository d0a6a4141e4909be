-- ===== src/Sequencer/Node/Commitment.antt =====
-- What the `tx_list_hash` of a header commits to.
use transformer_vm_bank.Base.{
  ◌%◌, ◌^◌, ◌<◌, ◌≡◌, refl, append-injective, List, [], ◌∷◌, length, arith, All, ◌⊎◌, inl, inr,
}
use transformer_vm_bank.Bytes.{to_le_bytes}
use transformer_vm_bank.Bytes.Encode.{le_fixed_field}
use transformer_vm_bank.Crypto.{Crypto, Collision, blake3-injective}
use transformer_vm_bank.Sequencer.Tx.{SignedTx, canonical}
use transformer_vm_bank.Sequencer.Tx.Encoding.{IsWire, canonical-injective, unsigned}
use transformer_vm_bank.Sequencer.Node.{tx_list_bytes, tx_list_hash}

-- What the Rust types give, and an encoding whose length fits a u32.
pub record IsListed (tx : SignedTx) : Type 0 where
  pub wire : IsWire tx
  pub canonical_len : length (canonical tx) < 2 ^ 32
  pub signature_len : length tx.signature ≡ 64

same_tx : (t u : SignedTx) → unsigned t ≡ unsigned u → t.signature ≡ u.signature → t ≡ u
same_tx t u e s = ground arith

tx_list_bytes-injective :
    (ts us : List SignedTx)
    → All IsListed ts
    → All IsListed us
    → tx_list_bytes ts ≡ tx_list_bytes us
    → ts ≡ us
unfolding tx_list_bytes
tx_list_bytes-injective [] [] ht hu e = refl
tx_list_bytes-injective [] (u ∷ us) ht hu e = absurd (unfold to_le_bytes in ground arith)
tx_list_bytes-injective (t ∷ ts) [] ht hu e = absurd (unfold to_le_bytes in ground arith)
tx_list_bytes-injective (t ∷ ts) (u ∷ us) ht hu e =
    let a = ht.0 in
    let b = hu.0 in
    let len =
      le_fixed_field 4 (length (canonical t) % 2 ^ 32) (length (canonical u) % 2 ^ 32) (omega arith)
        (omega arith) e in
    let body =
      append-injective (canonical t) (canonical u)
        (omega (arith, a.canonical_len, b.canonical_len, len.0)) len.1 in
    let sig =
      append-injective t.signature u.signature (omega (arith, a.signature_len, b.signature_len))
        body.1 in
    let first = same_tx t u (canonical-injective t u a.wire b.wire body.0) sig.0 in
    let rest = tx_list_bytes-injective ts us ht.1 hu.1 sig.1 in cc

-- Two lists of transactions with the same `tx_list_hash` are the same list, signatures and order
-- included, or show a BLAKE3 collision.
pub tx_list_hash-injective :
    (c : Crypto) (ts us : List SignedTx)
    → All IsListed ts
    → All IsListed us
    → tx_list_hash c ts ≡ tx_list_hash c us
    → (ts ≡ us) ⊎ Collision c
unfolding tx_list_hash
tx_list_hash-injective c ts us ht hu e =
    elim (blake3-injective c (tx_list_bytes ts) (tx_list_bytes us) e) [
      | inl same ↦ inl (tx_list_bytes-injective ts us ht hu same)
      | inr clash ↦ inr clash
    ]
