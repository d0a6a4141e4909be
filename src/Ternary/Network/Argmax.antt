-- ===== src/Ternary/Network/Argmax.antt =====
-- `argmax` of ternary_vm/src/network.rs: the lowest index of the largest value.
use transformer_vm_bank.Base.{
  ℕ, zero, suc, ◌≤◌, ◌<◌, ◌≡◌, ◌≢◌, refl, sym, ap, ◌∙◌, ◌⊎◌, inl, inr, some, List, [], ◌∷◌, map,
  arith, length, get_or, range, drop, length-drop, Bool-cases, ok, get_or-map-range, length-map,
  length-range, ◌==◌, true, false,
}
use transformer_vm_bank.Int.{ℤ, pos, ◌≤ℤ◌, ltb_ℤ}
use transformer_vm_bank.Ternary.Network.{argmax, argmax_from}

-- `i` is the lowest index of the largest value of `xs`.
pub record IsFirstMax (xs : List ℤ) (i : ℕ) : Type 0 where
  pub inside : i < length xs
  pub largest : (j : ℕ) → j < length xs → get_or xs j (pos 0) ≤ℤ get_or xs i (pos 0)
  pub lowest : (j : ℕ) → j < i → ltb_ℤ (get_or xs j (pos 0)) (get_or xs i (pos 0)) ≡ true

-- The best of the entries before `i`, and the entry at it, when the loop stands at index `i`.
record IsBest (xs : List ℤ) (i : ℕ) (best : ℕ × ℤ) : Type 0 where
  before : best.0 < i
  value : best.1 ≡ get_or xs best.0 (pos 0)
  largest : (j : ℕ) → j < i → get_or xs j (pos 0) ≤ℤ best.1
  lowest : (j : ℕ) → j < best.0 → ltb_ℤ (get_or xs j (pos 0)) best.1 ≡ true

drop-suc :
    (i : ℕ) (xs : List ℤ) {v : ℤ} {rest : List ℤ}
    → drop i xs ≡ v ∷ rest
    → (drop (suc i) xs ≡ rest) × (get_or xs i (pos 0) ≡ v)
drop-suc zero [] e = cc
drop-suc zero (x ∷ xs) e = (cc, cc)
drop-suc (suc i) [] e = cc
drop-suc (suc i) (x ∷ xs) e = drop-suc i xs e

at_or_below : (j i : ℕ) → j < suc i → (j < i) ⊎ (j ≡ i)
at_or_below j i h = omega arith

IsBest-above :
    (xs : List ℤ) (i : ℕ) (best : ℕ × ℤ)
    → IsBest xs i best
    → ltb_ℤ best.1 (get_or xs i (pos 0)) ≡ true
    → IsBest xs (suc i) (i, get_or xs i (pos 0))
IsBest-above xs i best b above = record {
  before = omega arith;
  value = refl;
  largest = λ j h. elim (at_or_below j i h) [
    | inl earlier ↦ ground (arith, b.largest j earlier)
    | inr same ↦ rw same (omega arith)
  ];
  lowest = λ j h. ground (arith, b.largest j h);
}

IsBest-below :
    (xs : List ℤ) (i : ℕ) (best : ℕ × ℤ)
    → IsBest xs i best
    → ltb_ℤ best.1 (get_or xs i (pos 0)) ≡ false
    → IsBest xs (suc i) best
IsBest-below xs i best b below = record {
  before = omega (arith, b.before);
  value = b.value;
  largest = λ j h. elim (at_or_below j i h) [
    | inl earlier ↦ b.largest j earlier
    | inr same ↦ rw same (ground arith)
  ];
  lowest = b.lowest;
}

-- The loop ends with the first of the largest values.
argmax_from-IsFirstMax :
    (xs : List ℤ) (i : ℕ) (rest : List ℤ) (best : ℕ × ℤ)
    → drop i xs ≡ rest
    → i ≤ length xs
    → IsBest xs i best
    → (last : ℕ × ℤ) × (argmax_from i (some best) rest ≡ some last) × IsFirstMax xs last.0
unfolding argmax_from
argmax_from-IsFirstMax xs i [] best e h b =
    let none_left : length (drop i xs) ≡ 0 = ap length e in
    let all : length xs ≡ i = omega (arith, length-drop i xs) in
    (
      best,
      refl,
      record {
        inside = omega (arith, b.before);
        largest = λ j lt. rw (sym b.value) (b.largest j (omega arith));
        lowest = λ j lt. rw (sym b.value) (b.lowest j lt);
      },
    )
argmax_from-IsFirstMax xs i (v ∷ rest) best e h b =
    let (next, entry) = drop-suc i xs e in
    let some_left : length (drop i xs) ≡ suc (length rest) = ap length e in
    let inside : suc i ≤ length xs = omega (arith, length-drop i xs) in
    elim (Bool-cases (ltb_ℤ best.1 v)) [
      | inl above ↦ rw above (
          argmax_from-IsFirstMax xs (suc i) rest (i, v) next inside
            (rw (sym entry) (IsBest-above xs i best b (rw entry above))))
      | inr below ↦ rw below (
          argmax_from-IsFirstMax xs (suc i) rest best next inside
            (IsBest-below xs i best b (rw entry below)))
    ]

-- On a vector with entries `argmax` returns the lowest index of the largest value.
pub argmax-IsFirstMax :
    (v : ℤ) (xs : List ℤ) → (i : ℕ) × (argmax (v ∷ xs) ≡ ok i) × IsFirstMax (v ∷ xs) i
unfolding argmax argmax_from
argmax-IsFirstMax v xs =
    let start : IsBest (v ∷ xs) 1 (0, v) = record {
      before = omega arith;
      value = refl;
      largest = λ j h. ground arith;
      lowest = λ j h. absurd (omega arith);
    } in
    let (last, e, first) = argmax_from-IsFirstMax (v ∷ xs) 1 xs (0, v) refl (omega arith) start in
    (last.0, rw e refl, first)

-- A vector that is 1 at one index and 0 at all others has its argmax there.
pub argmax-one_hot :
    (f : ℕ → ℕ) (n m : ℕ)
    → m < n
    → f m ≡ 1
    → ((k : ℕ) → k < n → k ≢ m → f k ≡ 0)
    → argmax (map (λ k. pos (f k)) (range 0 n)) ≡ ok m
argmax-one_hot f zero m h one others = absurd (omega arith)
argmax-one_hot f (suc n) m h one others =
    let xs = map (λ k. pos (f k)) (range 0 (suc n)) in
    let (i, e, first) = argmax-IsFirstMax (pos (f 0)) (map (λ k. pos (f k)) (range 1 n)) in
    let len : length xs ≡ suc n =
      length-map (range 0 (suc n)) (λ k. pos (f k)) ∙ length-range 0 (suc n) in
    let within : i < suc n = omega (arith, first.inside, len) in
    let at_m : get_or xs m (pos 0) ≡ pos (f m) =
      get_or-map-range (λ k. pos (f k)) (suc n) m (pos 0) h in
    let at_i : get_or xs i (pos 0) ≡ pos (f i) =
      get_or-map-range (λ k. pos (f k)) (suc n) i (pos 0) within in
    let above : f m ≤ f i = ground (arith, first.largest m (omega (arith, len)), at_m, at_i) in
    let same : i ≡ m = elim (Bool-cases (i == m)) [
      | inl equal ↦ ground arith
      | inr differ ↦ absurd (omega (arith, others i within (ground arith)))
    ] in
    e ∙ ap ok same
