-- ===== src/Dict.antt =====
-- `HashMap<[u8; 32], V>` as an association list, newest key last. The order of the entries, which
-- `HashMap` leaves unspecified, is that of insertion.
use transformer_vm_bank.Base.{
  ◌≡◌, refl, Bool, Option, none, some, List, [], ◌∷◌, arith, if◌then◌else◌, is_some,
}
use transformer_vm_bank.Bytes.{Bytes, bytes_eq, bytes_eq_iff}

abbrev pub Dict {ℓ} : Type ℓ → Type ℓ
Dict V = List (Bytes × V)

module _ {ℓ} {V : Type ℓ} where
  unfoldable pub lookup : Bytes → Dict V → Option V
  lookup k [] = none
  lookup k ((j, v) ∷ d) = if bytes_eq j k then some v else lookup k d

  -- `contains_key`
  abbrev pub contains : Bytes → Dict V → Bool
  contains k d = is_some (lookup k d)

  unfoldable pub insert : Bytes → V → Dict V → Dict V
  insert k v [] = (k, v) ∷ []
  insert k v ((j, w) ∷ d) = if bytes_eq j k then (j, v) ∷ d else (j, w) ∷ insert k v d

  unfoldable pub remove : Bytes → Dict V → Dict V
  remove k [] = []
  remove k ((j, w) ∷ d) = if bytes_eq j k then remove k d else (j, w) ∷ remove k d

  pub lookup-insert :
      (k j : Bytes) (v : V) (d : Dict V)
      → lookup j (insert k v d) ≡ (if bytes_eq k j then some v else lookup j d)
  unfolding lookup insert
  lookup-insert k j v [] = refl
  lookup-insert k j v ((i, w) ∷ d) =
      ground (arith, bytes_eq_iff k j, bytes_eq_iff i k, bytes_eq_iff i j, lookup-insert k j v d)

  pub lookup-remove :
      (k j : Bytes) (d : Dict V)
      → lookup j (remove k d) ≡ (if bytes_eq k j then none else lookup j d)
  unfolding lookup remove
  lookup-remove k j [] = ground arith
  lookup-remove k j ((i, w) ∷ d) =
      ground (arith, bytes_eq_iff k j, bytes_eq_iff i k, bytes_eq_iff i j, lookup-remove k j d)

-- No key has two entries.
abbrev pub IsUnique {ℓ} : {V : Type ℓ} → Dict V → Type ℓ
IsUnique [] = Unit
IsUnique ((k, v) ∷ d) = (lookup k d ≡ none) × IsUnique d

module _ {ℓ} {V : Type ℓ} where
  pub insert-IsUnique : (k : Bytes) (v : V) (d : Dict V) → IsUnique d → IsUnique (insert k v d)
  unfolding insert lookup
  insert-IsUnique k v [] u = (refl, tt)
  insert-IsUnique k v ((j, w) ∷ d) u =
      ground (
        arith,
        bytes_eq_iff j k,
        bytes_eq_iff k j,
        lookup-insert k j v d,
        insert-IsUnique k v d u.1,
      )

  pub remove-IsUnique : (k : Bytes) (d : Dict V) → IsUnique d → IsUnique (remove k d)
  unfolding remove lookup
  remove-IsUnique k [] u = tt
  remove-IsUnique k ((j, w) ∷ d) u =
      ground (arith, bytes_eq_iff k j, lookup-remove k j d, remove-IsUnique k d u.1)
