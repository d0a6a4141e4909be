-- ===== src/Sequencer/Mempool/Queue.antt =====
-- The queue of the mempool: its bound and its order.
use Prim.Native.Nat.{min}
use transformer_vm_bank.Base.{
  ℕ, zero, suc, ap, ◌+◌, ◌≡◌, refl, ◌<◌, ◌≤◌, ◌⊎◌, inl, inr, ◌++◌, Bool-cases, Result-cases, Option,
  List, [], ◌∷◌, ok, err, arith, length, length-append, take, drop, length-take, leb,
}
use transformer_vm_bank.Crypto.{Crypto}
use transformer_vm_bank.Sequencer.Tx.{SignedTx}
use transformer_vm_bank.Sequencer.Registry.{IssuerRecord}
use transformer_vm_bank.Sequencer.State.{State}
use transformer_vm_bank.Sequencer.Mempool.{Mempool, TxError, validate, ingress, drain}

module _ (c : Crypto) (registry : ℕ → Option IssuerRecord) where
  -- A valid transaction is queued at the end exactly while there is room; every other outcome leaves
  -- the mempool as it was, with an error.
  pub ingress-outcome :
      (tx : SignedTx) (s : State) (m : Mempool)
      → ((length m.queue < m.capacity)
          × (validate c tx s registry ≡ ok tt)
          × (ingress c tx s registry m ≡ (record m { queue = m.queue ++ tx ∷ [] }, ok tt)))
        ⊎ ((e : TxError) × ((m.capacity ≤ length m.queue) ⊎ (validate c tx s registry ≡ err e))
            × (ingress c tx s registry m ≡ (m, err e)))
  unfolding ingress
  ingress-outcome tx s m = elim (Bool-cases (leb m.capacity (length m.queue))) [
    | inl full ↦ inr (TxError.mempool_full, inl (ground arith), ground arith)
    | inr room ↦ elim (Result-cases (validate c tx s registry)) [
      | inl (tt, valid) ↦ inl (ground arith, valid, ground arith)
      | inr (e, bad) ↦ inr (e, inr bad, ground arith)
    ]
  ]

  -- A valid transaction can be queued twice, where there is room for two: nothing compares it with what
  -- is in the queue.
  pub ingress_twice :
      (tx : SignedTx) (s : State) (m : Mempool)
      → validate c tx s registry ≡ ok tt
      → length m.queue + 1 < m.capacity
      → let m' = (ingress c tx s registry m).0 in
        ((ingress c tx s registry m).1 ≡ ok tt)
        × ((ingress c tx s registry m').1 ≡ ok tt)
        × ((ingress c tx s registry m').0.queue ≡ (m.queue ++ tx ∷ []) ++ tx ∷ [])
  unfolding ingress
  ingress_twice tx s m valid room = ground (arith, length-append m.queue (tx ∷ []))

take-drop : {A : Type 0} (n : ℕ) (xs : List A) → take n xs ++ drop n xs ≡ xs
take-drop zero xs = refl
take-drop (suc n) [] = refl
take-drop (suc n) (x ∷ xs) = ap (◌∷◌ x) (take-drop n xs)

-- `drain` takes the first `n` transactions, or all, and leaves the others in their order.
pub drain-lem :
    (n : ℕ) (m : Mempool)
    → (length (drain n m).1 ≡ min n (length m.queue))
      × ((drain n m).1 ++ (drain n m).0.queue ≡ m.queue)
      × ((drain n m).0.capacity ≡ m.capacity)
unfolding drain
drain-lem n m = (
  omega (arith, length-take (min n (length m.queue)) m.queue),
  take-drop (min n (length m.queue)) m.queue,
  refl,
)
