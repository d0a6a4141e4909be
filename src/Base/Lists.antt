-- ===== src/Base/Lists.antt =====
-- Lists measured and indexed by native numbers, under the library's names.
use Prim.Native.Nat.{ℕ, zero, suc, ◌+◌, ◌-◌, ◌≤◌, ◌<◌, min}
use mathlib.Core.Path.{◌≡◌, refl, ap, ◌∙◌}
use mathlib.Core.Logic.{◌≢◌}
use mathlib.Core.Bool.{Bool, true, false, ◌&&◌, ◌||◌}
use mathlib.Core.Option.{Option, none, some}
use mathlib.Core.List.{List, [], ◌∷◌, ◌++◌, map, append_assoc}
use native.Mathlib.Omega.{arith}

module _ {ℓ} {A : Type ℓ} where
  abbrev pub length : List A → ℕ
  length [] = 0
  length (x ∷ xs) = suc (length xs)

  abbrev pub get_or : List A → ℕ → A → A
  get_or [] i d = d
  get_or (x ∷ xs) zero d = x
  get_or (x ∷ xs) (suc i) d = get_or xs i d

  abbrev pub take : ℕ → List A → List A
  take zero xs = []
  take (suc n) [] = []
  take (suc n) (x ∷ xs) = x ∷ take n xs

  abbrev pub drop : ℕ → List A → List A
  drop zero xs = xs
  drop (suc n) [] = []
  drop (suc n) (x ∷ xs) = drop n xs

  abbrev pub replicate : ℕ → A → List A
  replicate zero a = []
  replicate (suc n) a = a ∷ replicate n a

  abbrev pub All {κ} : (A → Type κ) → List A → Type κ
  All P [] = Unit
  All P (x ∷ xs) = P x × All P xs

  -- `iter().any(p)` and `iter().all(p)`
  abbrev pub any : (A → Bool) → List A → Bool
  any p [] = false
  any p (x ∷ xs) = p x || any p xs

  abbrev pub all : (A → Bool) → List A → Bool
  all p [] = true
  all p (x ∷ xs) = p x && all p xs

  -- `xs.get(i)`
  abbrev pub get : List A → ℕ → Option A
  get [] i = none
  get (x ∷ xs) zero = some x
  get (x ∷ xs) (suc i) = get xs i

  abbrev pub is_empty : List A → Bool
  is_empty [] = true
  is_empty (x ∷ xs) = false

pub is_empty-nil {ℓ} : {A : Type ℓ} (xs : List A) → is_empty xs ≡ true → xs ≡ []
is_empty-nil [] e = refl
is_empty-nil (x ∷ xs) e = cc

pub is_empty-cons {ℓ} : {A : Type ℓ} (xs : List A) → is_empty xs ≡ false → xs ≢ []
is_empty-cons [] e h = cc
is_empty-cons (x ∷ xs) e h = cc

-- The numbers from `i` on, `n` of them: `i..i + n`.
abbrev pub range : ℕ → ℕ → List ℕ
range i zero = []
range i (suc n) = i ∷ range (suc i) n

pub length-range : (i n : ℕ) → length (range i n) ≡ n
length-range i zero = refl
length-range i (suc n) = ap suc (length-range (suc i) n)

pub get-map-range {ℓ} :
    {A : Type ℓ} (f : ℕ → A) (i n k : ℕ) → k < n → get (map f (range i n)) k ≡ some (f (i + k))
get-map-range f i zero k h = absurd (omega arith)
get-map-range f i (suc n) zero h = ap (λ j. some (f j)) (omega arith)
get-map-range f i (suc n) (suc k) h =
    let rest : get (map f (range (suc i) n)) k ≡ some (f (suc i + k)) =
      get-map-range f (suc i) n k (omega arith) in
    rest ∙ ap (λ j. some (f j)) (omega arith)

module _ {ℓ} {A : Type ℓ} where
  pub length-append : (xs ys : List A) → length (xs ++ ys) ≡ length xs + length ys
  length-append [] ys = omega arith
  length-append (x ∷ xs) ys = omega (arith, length-append xs ys)

  pub length-replicate : (n : ℕ) (a : A) → length (replicate n a) ≡ n
  length-replicate zero a = refl
  length-replicate (suc n) a = ap suc (length-replicate n a)

  pub length-take : (n : ℕ) (xs : List A) → length (take n xs) ≡ min n (length xs)
  length-take zero xs = omega arith
  length-take (suc n) [] = omega arith
  length-take (suc n) (x ∷ xs) = omega (arith, length-take n xs)

  pub length-drop : (n : ℕ) (xs : List A) → length (drop n xs) ≡ length xs - n
  length-drop zero xs = omega arith
  length-drop (suc n) [] = omega arith
  length-drop (suc n) (x ∷ xs) = omega (arith, length-drop n xs)

  -- A bound by the length, as of `drain(..n.min(len))`, changes neither part.
  pub take-min : (n : ℕ) (xs : List A) → take (min n (length xs)) xs ≡ take n xs
  take-min zero xs = let e : min 0 (length xs) ≡ 0 = omega arith in rw e refl
  take-min (suc n) [] = let e : min (suc n) 0 ≡ 0 = omega arith in rw e refl
  take-min (suc n) (x ∷ xs) =
      let e : min (suc n) (suc (length xs)) ≡ suc (min n (length xs)) = omega arith in
      rw e (ap (◌∷◌ x) (take-min n xs))

  pub drop-min : (n : ℕ) (xs : List A) → drop (min n (length xs)) xs ≡ drop n xs
  drop-min zero xs = let e : min 0 (length xs) ≡ 0 = omega arith in rw e refl
  drop-min (suc n) [] = let e : min (suc n) 0 ≡ 0 = omega arith in rw e refl
  drop-min (suc n) (x ∷ xs) =
      let e : min (suc n) (suc (length xs)) ≡ suc (min n (length xs)) = omega arith in
      rw e (drop-min n xs)

  pub take-nil : (n : ℕ) → take {A = A} n [] ≡ []
  take-nil zero = refl
  take-nil (suc n) = refl

  pub drop-none : (n : ℕ) (xs : List A) → take n xs ≡ [] → drop n xs ≡ xs
  drop-none zero xs e = refl
  drop-none (suc n) [] e = refl
  drop-none (suc n) (x ∷ xs) e = cc

  pub take-append-drop : (n : ℕ) (xs : List A) → take n xs ++ drop n xs ≡ xs
  take-append-drop zero xs = refl
  take-append-drop (suc n) [] = refl
  take-append-drop (suc n) (x ∷ xs) = rw (take-append-drop n xs)

  -- Two parts of known length are recovered from what they are joined to.
  pub append-injective :
      (xs ys : List A) {us vs : List A}
      → length xs ≡ length ys
      → xs ++ us ≡ ys ++ vs
      → (xs ≡ ys) × (us ≡ vs)
  append-injective [] [] h e = (refl, e)
  append-injective [] (y ∷ ys) h e = absurd (omega arith)
  append-injective (x ∷ xs) [] h e = absurd (omega arith)
  append-injective (x ∷ xs) (y ∷ ys) {us} {vs} h e =
      let tails : xs ++ us ≡ ys ++ vs = cc in
      let rest = append-injective xs ys (omega arith) tails in (cc, rest.1)

  pub length-map {κ} : {B : Type κ} (xs : List A) (f : A → B) → length (map f xs) ≡ length xs
  length-map [] f = refl
  length-map (x ∷ xs) f = ap suc (length-map xs f)

  pub All-append {κ} : (P : A → Type κ) (xs ys : List A) → All P xs → All P ys → All P (xs ++ ys)
  All-append P [] ys hx hy = hy
  All-append P (x ∷ xs) ys hx hy = (hx.0, All-append P xs ys hx.1 hy)

  pub get-replicate : (n i : ℕ) (a : A) → i < n → get (replicate n a) i ≡ some a
  get-replicate zero i a h = absurd (omega arith)
  get-replicate (suc n) zero a h = refl
  get-replicate (suc n) (suc i) a h = get-replicate n i a (omega arith)

  -- An entry of two lists joined is an entry of the one or of the other.
  pub get-append-left : (xs ys : List A) (i : ℕ) → i < length xs → get (xs ++ ys) i ≡ get xs i
  get-append-left [] ys i h = absurd (omega arith)
  get-append-left (x ∷ xs) ys zero h = refl
  get-append-left (x ∷ xs) ys (suc i) h = get-append-left xs ys i (omega arith)

  pub get-append-right :
      (xs ys : List A) (i k : ℕ) → i ≡ length xs + k → get (xs ++ ys) i ≡ get ys k
  get-append-right [] ys i k e = ap (get ys) (omega arith)
  get-append-right (x ∷ xs) ys zero k e = absurd (omega arith)
  get-append-right (x ∷ xs) ys (suc i) k e = get-append-right xs ys i k (omega arith)

  pub get_or-lt : (xs : List A) (i : ℕ) (d : A) {a : A} → get xs i ≡ some a → get_or xs i d ≡ a
  get_or-lt [] i d e = cc
  get_or-lt (x ∷ xs) zero d e = cc
  get_or-lt (x ∷ xs) (suc i) d e = get_or-lt xs i d e

  pub get_or-append-right :
      (xs ys : List A) (i k : ℕ) (d : A) → i ≡ length xs + k → get_or (xs ++ ys) i d ≡ get_or ys k d
  get_or-append-right [] ys i k d e = ap (λ j. get_or ys j d) (omega arith)
  get_or-append-right (x ∷ xs) ys zero k d e = absurd (omega arith)
  get_or-append-right (x ∷ xs) ys (suc i) k d e = get_or-append-right xs ys i k d (omega arith)

  pub get_or-append-left :
      (xs ys : List A) (i : ℕ) (d : A) → i < length xs → get_or (xs ++ ys) i d ≡ get_or xs i d
  get_or-append-left [] ys i d h = absurd (omega arith)
  get_or-append-left (x ∷ xs) ys zero d h = refl
  get_or-append-left (x ∷ xs) ys (suc i) d h = get_or-append-left xs ys i d (omega arith)

  pub All-map-range {κ} :
      (P : A → Type κ) (f : ℕ → A) (i n : ℕ)
      → ((k : ℕ) → i ≤ k → k < i + n → P (f k))
      → All P (map f (range i n))
  All-map-range P f i zero h = tt
  All-map-range P f i (suc n) h = (
    h i (omega arith) (omega arith),
    All-map-range P f (suc i) n (λ k lo hi. h k (omega arith) (omega arith)),
  )

pub get-map-range0 {ℓ} :
    {A : Type ℓ} (f : ℕ → A) (n k : ℕ) → k < n → get (map f (range 0 n)) k ≡ some (f k)
get-map-range0 f n k h = get-map-range f 0 n k h ∙ ap (λ j. some (f j)) (omega arith)

pub get_or-map-range {ℓ} :
    {A : Type ℓ} (f : ℕ → A) (n k : ℕ) (d : A) → k < n → get_or (map f (range 0 n)) k d ≡ f k
get_or-map-range f n k d h = get_or-lt (map f (range 0 n)) k d (get-map-range0 f n k h)

-- An entry of what a loop has pushed, before what is pushed after it.
pub get-pushed {ℓ} :
    {A : Type ℓ} (f : ℕ → A) (n k : ℕ) (last : List A)
    → k < n
    → get (map f (range 0 n) ++ last) k ≡ some (f k)
get-pushed f n k last h =
    get-append-left (map f (range 0 n)) last k
      (omega (arith, length-map (range 0 n) f, length-range 0 n, h))
    ∙ get-map-range0 f n k h

-- Reading a list by its indices gives its entries.
map-get_or-from {ℓ κ} :
    {A : Type ℓ} {B : Type κ} (g : A → B) (pre xs : List A) (d : A) (i : ℕ)
    → i ≡ length pre
    → map (λ k. g (get_or (pre ++ xs) k d)) (range i (length xs)) ≡ map g xs
map-get_or-from g pre [] d i e = refl
map-get_or-from g pre (x ∷ xs) d i e =
    let here : get_or (pre ++ x ∷ xs) i d ≡ x =
      get_or-append-right pre (x ∷ xs) i 0 d (omega arith) in
    let whole : (pre ++ x ∷ []) ++ xs ≡ pre ++ x ∷ xs = append_assoc pre (x ∷ []) xs in
    let rest : map (λ k. g (get_or (pre ++ x ∷ xs) k d)) (range (suc i) (length xs)) ≡ map g xs =
      rw whole at (
        map-get_or-from g (pre ++ x ∷ []) xs d (suc i)
          (omega (arith, length-append pre (x ∷ [])))) in
    rw (here, rest) refl

pub map-get_or {ℓ κ} :
    {A : Type ℓ} {B : Type κ} (g : A → B) (xs : List A) (d : A)
    → map (λ k. g (get_or xs k d)) (range 0 (length xs)) ≡ map g xs
map-get_or g xs d = map-get_or-from g [] xs d 0 refl
