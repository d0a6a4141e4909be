-- ===== src/Ternary/Parallel.antt =====
-- The two layers that several primitives of ternary_vm share: from the single activation TOTAL to
-- the pairs ReLU(TOTAL - i + 1), ReLU(TOTAL - i), and from these to the thermometer of TOTAL.
use transformer_vm_bank.Base.{
  ℕ, zero, suc, ◌+◌, ◌-◌, ◌*◌, ◌/◌, ◌%◌, ◌^◌, ◌≤◌, ◌<◌, ◌≡◌, refl, ap, ◌∙◌, true, false, List, [],
  ◌∷◌, map, arith, leb, ◌==◌, if◌then◌else◌, length, get, range, replicate, All, ok, some,
  Bool-cases, inl, inr, length-map, length-range, get-map-range0, get-replicate, All-map-range,
  get_or-map-range,
}
use transformer_vm_bank.Int.{ℤ, pos, ◌-ℤ◌, ◌+ℤ◌}
use transformer_vm_bank.Ternary.Network.{SparseTernaryLayer, forward_layer, forward_row, activate}
use transformer_vm_bank.Ternary.Network.Kernel.{sum_at, magnitude}
use transformer_vm_bank.Ternary.Network.Bounds.{forward_row-of, forward_layer-of}

-- A loop that pushes two rows for each `i` of `i..i + n`.
unfoldable pub push_pairs {ℓ} : {A : Type ℓ} → (ℕ → A) → (ℕ → A) → ℕ → ℕ → List A
push_pairs first second i zero = []
push_pairs first second i (suc n) = first i ∷ second i ∷ push_pairs first second (suc i) n

unfoldable pub parallel_relu : ℕ → SparseTernaryLayer
parallel_relu thermo_len = record {
  input_dim = 1;
  output_dim = 2 * thermo_len;
  pos_indices = push_pairs (λ i. 0 ∷ []) (λ i. 0 ∷ []) 0 thermo_len;
  neg_indices = push_pairs (λ i. []) (λ i. []) 0 thermo_len;
  bias = push_pairs (λ i. pos 1 -ℤ pos i) (λ i. pos 0 -ℤ pos i) 0 thermo_len;
  relu = true;
}

unfoldable pub thermo_decode : ℕ → SparseTernaryLayer
thermo_decode thermo_len = record {
  input_dim = 2 * thermo_len;
  output_dim = thermo_len;
  pos_indices = map (λ i. (2 * i) ∷ []) (range 0 thermo_len);
  neg_indices = map (λ i. (2 * i + 1) ∷ []) (range 0 thermo_len);
  bias = replicate thermo_len (pos 0);
  relu = false;
}

-- A vector of natural activations.
abbrev pub naturals : (ℕ → ℕ) → ℕ → List ℤ
naturals f n = map (λ k. pos (f k)) (range 0 n)

pub length-naturals : (f : ℕ → ℕ) (n : ℕ) → length (naturals f n) ≡ n
length-naturals f n = length-map (range 0 n) (λ k. pos (f k)) ∙ length-range 0 n

pub small-naturals :
    (f : ℕ → ℕ) (n bound : ℕ)
    → ((k : ℕ) → k < n → f k ≤ bound)
    → All (λ v. magnitude v ≤ bound) (naturals f n)
small-naturals f n bound h =
    All-map-range (λ v. magnitude v ≤ bound) (λ k. pos (f k)) 0 n
      (λ k lo hi. omega (arith, h k (omega arith)))

get-push_pairs {ℓ} :
    {A : Type ℓ} (first second : ℕ → A) (i n k : ℕ)
    → k < 2 * n
    → get (push_pairs first second i n) k
      ≡ some (if k % 2 == 0 then first (i + k / 2) else second (i + k / 2))
unfolding push_pairs
get-push_pairs first second i zero k h = absurd (omega arith)
get-push_pairs first second i (suc n) zero h = ap (λ j. some (first j)) (omega arith)
get-push_pairs first second i (suc n) (suc zero) h = ap (λ j. some (second j)) (omega arith)
get-push_pairs first second i (suc n) (suc (suc k)) h =
    let rest = get-push_pairs first second (suc i) n k (omega arith) in
    let parity : suc (suc k) % 2 ≡ k % 2 = omega arith in
    let half : i + suc (suc k) / 2 ≡ suc i + k / 2 = omega arith in rw (parity, half) rest

get-push_same {ℓ} :
    {A : Type ℓ} (a : A) (n k : ℕ) → k < 2 * n → get (push_pairs (λ i. a) (λ i. a) 0 n) k ≡ some a
get-push_same a n k h =
    get-push_pairs (λ i. a) (λ i. a) 0 n k h
    ∙ elim (Bool-cases (k % 2 == 0)) [ inl even ↦ rw even refl | inr odd ↦ rw odd refl ]

-- The pairs of ReLU outputs for a given total.
abbrev pub relu_pair : ℕ → ℕ → ℕ
relu_pair total r = total + 1 - (r / 2 + r % 2)

-- The biases of the two rows of a pair.
abbrev pair_bias : ℕ → ℤ
pair_bias r = if r % 2 == 0 then pos 1 -ℤ pos (0 + r / 2) else pos 0 -ℤ pos (0 + r / 2)

magnitude-pair_bias : (r : ℕ) → magnitude (pair_bias r) ≤ r + 1
unfolding ◌-ℤ◌
magnitude-pair_bias r = ground arith

relu-pair_bias :
    (total r : ℕ)
    → activate true (pair_bias r +ℤ (pos total +ℤ pos 0) -ℤ pos 0) ≡ pos (relu_pair total r)
unfolding ◌-ℤ◌ ◌+ℤ◌ activate
relu-pair_bias total r = ground arith

parallel_relu-row :
    (thermo_len total layer_idx r : ℕ)
    → r < 2 * thermo_len
    → thermo_len + total < 2 ^ 60
    → forward_row (parallel_relu thermo_len) (pos total ∷ []) layer_idx r
      ≡ ok (pos (relu_pair total r))
unfolding parallel_relu sum_at
parallel_relu-row thermo_len total layer_idx r h hs =
    forward_row-of (parallel_relu thermo_len) (pos total ∷ []) total layer_idx r (pair_bias r)
      (0 ∷ []) [] (get-push_pairs (λ i. pos 1 -ℤ pos i) (λ i. pos 0 -ℤ pos i) 0 thermo_len r h)
      (get-push_same (0 ∷ []) thermo_len r h) (get-push_same [] thermo_len r h) (omega arith, tt)
      (omega arith, tt) tt (omega (arith, magnitude-pair_bias r))
    ∙ ap ok (relu-pair_bias total r)

pub parallel_relu-layer :
    (thermo_len total layer_idx : ℕ) (y : List ℤ)
    → length y ≡ 2 * thermo_len
    → thermo_len + total < 2 ^ 60
    → forward_layer (parallel_relu thermo_len) (pos total ∷ []) y layer_idx
      ≡ ok (naturals (relu_pair total) (2 * thermo_len))
unfolding parallel_relu
parallel_relu-layer thermo_len total layer_idx y hy hs =
    forward_layer-of (parallel_relu thermo_len) (pos total ∷ []) (λ r. pos (relu_pair total r))
      layer_idx y refl hy (λ r h. parallel_relu-row thermo_len total layer_idx r h hs)

-- Entry `i` of the thermometer of `total`.
abbrev pub thermo_at : ℕ → ℕ → ℕ
thermo_at total i = if leb i total then 1 else 0

thermo_decode-value :
    (total i : ℕ)
    → activate false (
        pos 0
        +ℤ (pos (relu_pair total (2 * i)) +ℤ pos 0)
        -ℤ (pos (relu_pair total (2 * i + 1)) +ℤ pos 0))
      ≡ pos (thermo_at total i)
unfolding ◌-ℤ◌ ◌+ℤ◌ activate
thermo_decode-value total i = ground arith

thermo_decode-row :
    (thermo_len total layer_idx i : ℕ)
    → i < thermo_len
    → total < 2 ^ 60
    → forward_row
        (thermo_decode thermo_len)
        (naturals (relu_pair total) (2 * thermo_len))
        layer_idx
        i
      ≡ ok (pos (thermo_at total i))
unfolding thermo_decode sum_at
thermo_decode-row thermo_len total layer_idx i h hs =
    let x = naturals (relu_pair total) (2 * thermo_len) in
    let len = length-naturals (relu_pair total) (2 * thermo_len) in
    let even =
      get_or-map-range (λ r. pos (relu_pair total r)) (2 * thermo_len) (2 * i) (pos 0)
        (omega arith) in
    let odd =
      get_or-map-range (λ r. pos (relu_pair total r)) (2 * thermo_len) (2 * i + 1) (pos 0)
        (omega arith) in
    forward_row-of (thermo_decode thermo_len) x (total + 1) layer_idx i (pos 0) ((2 * i) ∷ [])
      ((2 * i + 1) ∷ []) (get-replicate thermo_len i (pos 0) h)
      (get-map-range0 (λ k. (2 * k) ∷ []) thermo_len i h)
      (get-map-range0 (λ k. (2 * k + 1) ∷ []) thermo_len i h)
      (small-naturals (relu_pair total) (2 * thermo_len) (total + 1) (λ k lt. omega arith))
      (omega (arith, len), tt) (omega (arith, len), tt) (omega arith)
    ∙ rw (even, odd) (ap ok (thermo_decode-value total i))

pub thermo_decode-layer :
    (thermo_len total layer_idx : ℕ) (y : List ℤ)
    → length y ≡ thermo_len
    → total < 2 ^ 60
    → forward_layer
        (thermo_decode thermo_len)
        (naturals (relu_pair total) (2 * thermo_len))
        y
        layer_idx
      ≡ ok (naturals (thermo_at total) thermo_len)
unfolding thermo_decode
thermo_decode-layer thermo_len total layer_idx y hy hs =
    forward_layer-of (thermo_decode thermo_len) (naturals (relu_pair total) (2 * thermo_len))
      (λ i. pos (thermo_at total i)) layer_idx y
      (length-naturals (relu_pair total) (2 * thermo_len)) hy
      (λ i h. thermo_decode-row thermo_len total layer_idx i h hs)
