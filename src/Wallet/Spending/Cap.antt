-- ===== src/Wallet/Spending/Cap.antt =====
-- The cap holds over every window, whatever the order of the times of the calls.
use Prim.Native.Nat.{min}
use transformer_vm_bank.Base.{
  ℕ, ◌+◌, ◌-◌, ◌≤◌, ◌≡◌, refl, Bool, false, List, [], ◌∷◌, ◌++◌, is_ok, if◌then◌else◌, ltb, arith,
  All, ap, ◌∙◌, Bool-cases, inl, inr,
}
use transformer_vm_bank.Wallet.Policy.{KeyPolicy, allows_contract, allows_counterparty}
use transformer_vm_bank.Wallet.Spending.{
  SpendingTracker, new, drop_before, evict_expired, saturating_sum, current_window_total, try_spend,
  admit, Call, admit_all, u128_max,
}

abbrev pub sum : List (ℕ × ℕ) → ℕ
sum [] = 0
sum ((t, amount) ∷ spends) = amount + sum spends

-- The amounts of the entries at or after the cutoff.
abbrev pub sum_from : ℕ → List (ℕ × ℕ) → ℕ
sum_from cutoff [] = 0
sum_from cutoff ((t, amount) ∷ spends) =
    (if ltb t cutoff then 0 else amount) + sum_from cutoff spends

-- What the admitted calls spent inside the window that ends at `now`.
abbrev pub spent_in_window : (window now : ℕ) → List Call → ℕ
spent_in_window window now [] = 0
spent_in_window window now (x ∷ calls) =
    (if ltb x.now (now - window) then 0 else x.amount) + spent_in_window window now calls

sum_from-le : (cutoff : ℕ) (s : List (ℕ × ℕ)) → sum_from cutoff s ≤ sum s
sum_from-le cutoff [] = omega arith
sum_from-le cutoff ((t, amount) ∷ s) = ground (arith, sum_from-le cutoff s)

sum_from-append :
    (cutoff : ℕ) (xs ys : List (ℕ × ℕ))
    → sum_from cutoff (xs ++ ys) ≡ sum_from cutoff xs + sum_from cutoff ys
sum_from-append cutoff [] ys = omega arith
sum_from-append cutoff ((t, amount) ∷ xs) ys = omega (arith, sum_from-append cutoff xs ys)

sum-append : (xs ys : List (ℕ × ℕ)) → sum (xs ++ ys) ≡ sum xs + sum ys
sum-append [] ys = omega arith
sum-append ((t, amount) ∷ xs) ys = omega (arith, sum-append xs ys)

-- Eviction at a cutoff takes nothing from a window that starts there or later.
sum_from-drop_before :
    (early cutoff : ℕ) (s : List (ℕ × ℕ))
    → early ≤ cutoff
    → sum_from cutoff (drop_before early s) ≡ sum_from cutoff s
unfolding drop_before
sum_from-drop_before early cutoff [] h = refl
sum_from-drop_before early cutoff ((t, amount) ∷ s) h =
    ground (arith, sum_from-drop_before early cutoff s h)

pub sum-drop_before-le : (cutoff : ℕ) (s : List (ℕ × ℕ)) → sum (drop_before cutoff s) ≤ sum s
unfolding drop_before
sum-drop_before-le cutoff [] = omega arith
sum-drop_before-le cutoff ((t, amount) ∷ s) = ground (arith, sum-drop_before-le cutoff s)

-- Below the largest u128 the saturating sum is the sum.
pub saturating_sum-eq-sum :
    (total : ℕ) (s : List (ℕ × ℕ))
    → total + sum s ≤ u128_max
    → saturating_sum total s ≡ total + sum s
unfolding saturating_sum
saturating_sum-eq-sum total [] h = omega arith
saturating_sum-eq-sum total ((t, amount) ∷ s) h =
    let fits : min (total + amount) u128_max ≡ total + amount = omega arith in
    rw fits (omega (arith, saturating_sum-eq-sum (total + amount) s (omega arith)))

-- The entries that the tracker holds never exceed the cap.
pub record IsWithin (s : SpendingTracker) : Type 0 where
  pub cap_u128 : s.policy.cap_per_window ≤ u128_max
  pub within : sum s.spends ≤ s.policy.cap_per_window

-- What one call does: the policy stays, the entries stay within the cap, and the windows from a later
-- cutoff hold the call's amount more if it was admitted.
record Spends (s s' : SpendingTracker) (now amount : ℕ) (admitted : Bool) : Type 0 where
  same_policy : s'.policy ≡ s.policy
  still_within : IsWithin s'
  counted :
      (cutoff : ℕ)
      → now - s.policy.window_secs ≤ cutoff
      → sum_from cutoff s'.spends
        ≡ sum_from cutoff s.spends
          + (if admitted then (if ltb now cutoff then 0 else amount) else 0)

try_spend-Spends :
    (now amount : ℕ) (s : SpendingTracker)
    → IsWithin s
    → Spends s (try_spend now amount s).0 now amount (is_ok (try_spend now amount s).1)
unfolding try_spend current_window_total evict_expired
try_spend-Spends now amount s v =
    let left = drop_before (now - s.policy.window_secs) s.spends in
    let total = saturating_sum-eq-sum 0 left (
      omega
        (arith, sum-drop_before-le (now - s.policy.window_secs) s.spends, v.within, v.cap_u128)) in
    record {
      same_policy = ground arith;
      still_within = ground (
        arith,
        total,
        v.within,
        v.cap_u128,
        sum-drop_before-le (now - s.policy.window_secs) s.spends,
        sum-append left ((now, amount) ∷ []),
      );
      counted = λ cutoff h. ground (
        arith,
        sum_from-drop_before (now - s.policy.window_secs) cutoff s.spends h,
        sum_from-append cutoff left ((now, amount) ∷ []),
      );
    }

Spends-refused : (now amount : ℕ) (s : SpendingTracker) → IsWithin s → Spends s s now amount false
Spends-refused now amount s v = record {
  same_policy = refl;
  still_within = v;
  counted = λ cutoff h. omega arith;
}

admit-Spends :
    (x : Call) (s : SpendingTracker)
    → IsWithin s
    → let r = admit x.now x.contract x.counterparty x.amount s in
      Spends s r.0 x.now x.amount (is_ok r.1)
unfolding admit
admit-Spends x s v = elim (Bool-cases (allows_contract s.policy x.contract)) [
  | inr other ↦ rw (other, admit) (Spends-refused x.now x.amount s v)
  | inl allowed ↦ elim (Bool-cases (allows_counterparty s.policy x.counterparty)) [
    | inr other ↦ rw (allowed, other, admit) (Spends-refused x.now x.amount s v)
    | inl known ↦ rw (allowed, known, admit) (try_spend-Spends x.now x.amount s v)
  ]
]

window_cap_from :
    (calls : List Call) (s : SpendingTracker) (now window cap : ℕ)
    → IsWithin s
    → All (λ x. x.now ≤ now) calls
    → s.policy.window_secs ≡ window
    → s.policy.cap_per_window ≡ cap
    → sum_from (now - window) s.spends + spent_in_window window now (admit_all calls s).1 ≤ cap
unfolding admit_all
window_cap_from [] s now window cap v h ew ec =
    omega (arith, sum_from-le (now - window) s.spends, v.within)
window_cap_from (x ∷ calls) s now window cap v h ew ec =
    let r = admit x.now x.contract x.counterparty x.amount s in
    let spent = admit-Spends x s v in
    let ih =
      window_cap_from calls r.0 now window cap spent.still_within h.1
        (ap (λ (p : KeyPolicy). p.window_secs) spent.same_policy ∙ ew)
        (ap (λ (p : KeyPolicy). p.cap_per_window) spent.same_policy ∙ ec) in
    ground (arith, h.0, spent.counted (now - window) (omega (arith, h.0)), ih)

-- Of a fresh tracker, whatever calls of `admit` it gets and in whatever order their times come: at
-- any moment not before those times, the admitted amounts of the last `window_secs` seconds sum up to
-- no more than the cap, if the cap is a u128.
pub window_cap :
    (p : KeyPolicy) (calls : List Call) (now : ℕ)
    → p.cap_per_window ≤ u128_max
    → All (λ x. x.now ≤ now) calls
    → spent_in_window p.window_secs now (admit_all calls (new p)).1 ≤ p.cap_per_window
unfolding new
window_cap p calls now h early = omega (
  arith,
  window_cap_from calls (new p) now p.window_secs p.cap_per_window
      (record { cap_u128 = h; within = omega arith }) early refl refl,
)
