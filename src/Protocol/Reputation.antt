-- ===== src/Protocol/Reputation.antt =====
-- agent_protocol/src/reputation.rs: the counters of an agent and the score made of them.
use Prim.Native.Nat.{min, max}
use native.Mathlib.Nat.{le-div_iff_mul-le, div-le_of_le-mul, div-mul-le_self, zero-div, le_trans}
use transformer_vm_bank.Base.{
  ℕ, ◌+◌, ◌-◌, ◌*◌, ◌/◌, ◌^◌, ◌≤◌, ◌<◌, ◌≡◌, refl, Option, none, some, arith, if◌then◌else◌, ◌==◌,
}
use transformer_vm_bank.Bytes.{Bytes, bytes_eq}
use transformer_vm_bank.Dict.{Dict, lookup, insert, lookup-insert}

abbrev u64_max : ℕ
u64_max = 2 ^ 64 - 1

-- `n.saturating_add(1)` on a u64
abbrev pub saturating_succ : ℕ → ℕ
saturating_succ n = min (n + 1) (2 ^ 64 - 1)

pub record ReputationCounters : Type 0 where
  pub initiated : ℕ
  pub completed : ℕ
  pub disputed : ℕ
  pub disputes_lost : ℕ

abbrev pub default : ReputationCounters
default = record { initiated = 0; completed = 0; disputed = 0; disputes_lost = 0 }

unfoldable pub score : ReputationCounters → ℕ
score r =
    if r.initiated == 0
    then 500
    else let completion = (r.completed * 1000) / max r.initiated 1 in
      let dispute_penalty : ℕ =
        if r.disputed == 0 then 0 else (r.disputes_lost * 1000) / max r.disputed 1 in
      min (completion - dispute_penalty) 1000

-- The field `by_agent` of `ReputationLog`.
abbrev pub ReputationLog : Type 0
ReputationLog = Dict ReputationCounters

abbrev or_default : Option ReputationCounters → ReputationCounters
or_default none = default
or_default (some r) = r

unfoldable pub get : Bytes → ReputationLog → ReputationCounters
get agent log = or_default (lookup agent log)

-- `entry(agent)` with an update of the counters that it hands out.
unfoldable pub update :
    Bytes → (ReputationCounters → ReputationCounters) → ReputationLog → ReputationLog
update agent f log = insert agent (f (or_default (lookup agent log))) log

unfoldable pub record_initiated : Bytes → ReputationLog → ReputationLog
record_initiated agent = update agent λ r. record r { initiated = saturating_succ r.initiated }

unfoldable pub record_completed : Bytes → ReputationLog → ReputationLog
record_completed agent = update agent λ r. record r { completed = saturating_succ r.completed }

unfoldable pub record_dispute_opened : Bytes → ReputationLog → ReputationLog
record_dispute_opened agent = update agent λ r. record r { disputed = saturating_succ r.disputed }

unfoldable pub record_dispute_lost : Bytes → ReputationLog → ReputationLog
record_dispute_lost agent =
    update agent λ r. record r { disputes_lost = saturating_succ r.disputes_lost }

get-update :
    (agent other : Bytes) (f : ReputationCounters → ReputationCounters) (log : ReputationLog)
    → get other (update agent f log)
      ≡ (if bytes_eq agent other then f (get agent log) else get other log)
unfolding get update
get-update agent other f log =
    ground (arith, lookup-insert agent other (f (or_default (lookup agent log))) log)

-- Each of the four records raises its own counter of the agent by one, up to the largest u64, and
-- changes no other counter and no other agent.
pub records_count :
    (agent other : Bytes) (log : ReputationLog)
    → let mine = get agent log in
      (get other (record_initiated agent log) ≡ (
        if bytes_eq agent other
        then record mine { initiated = saturating_succ mine.initiated }
        else get other log))
      × (get other (record_completed agent log) ≡ (
          if bytes_eq agent other
          then record mine { completed = saturating_succ mine.completed }
          else get other log))
      × (get other (record_dispute_opened agent log) ≡ (
          if bytes_eq agent other
          then record mine { disputed = saturating_succ mine.disputed }
          else get other log))
      × (get other (record_dispute_lost agent log) ≡ (
          if bytes_eq agent other
          then record mine { disputes_lost = saturating_succ mine.disputes_lost }
          else get other log))
unfolding record_initiated record_completed record_dispute_opened record_dispute_lost
records_count agent other log = (
  get-update agent other _ log,
  get-update agent other _ log,
  get-update agent other _ log,
  get-update agent other _ log,
)

-- Shares in thousandths, as the score computes them.
permille_full : (n d : ℕ) → 0 < d → d ≤ n → 1000 ≤ n * 1000 / max d 1
permille_full n d h k =
    let same : max d 1 ≡ d = omega arith in rw same ((le-div_iff_mul-le h).1 (omega arith))

permille_part : (n d : ℕ) → 0 < d → n ≤ d → n * 1000 / max d 1 ≤ 1000
permille_part n d h k =
    let same : max d 1 ≡ d = omega arith in
    rw same (div-le_of_le-mul d {m = n * 1000} {n = 1000} (omega arith))

permille_mono : (m n d : ℕ) → m ≤ n → m * 1000 / max d 1 ≤ n * 1000 / max d 1
permille_mono m n d h =
    let pos : 0 < max d 1 = omega arith in
    (le-div_iff_mul-le pos).1 (le_trans (div-mul-le_self (m * 1000) (max d 1)) (omega arith))

-- The score lies between 0 and 1000, and an agent that has begun nothing has 500.
pub score_range : (r : ReputationCounters) → (score r ≤ 1000) × (score default ≡ 500)
unfolding score
score_range r = (ground arith, refl)

-- An agent that completed all it began and lost no dispute has the score 1000.
pub score_full :
    (r : ReputationCounters)
    → 0 < r.initiated
    → r.initiated ≤ r.completed
    → r.disputes_lost ≡ 0
    → score r ≡ 1000
unfolding score
score_full r began done lost =
    ground (arith, permille_full r.completed r.initiated began done, zero-div (max r.disputed 1))

-- An agent that lost every dispute it was in has the score 0, if it completed no more than it began.
pub score_lost :
    (r : ReputationCounters)
    → 0 < r.initiated
    → r.completed ≤ r.initiated
    → 0 < r.disputed
    → r.disputed ≤ r.disputes_lost
    → score r ≡ 0
unfolding score
score_lost r began done disputes lost = ground (
  arith,
  permille_part r.completed r.initiated began done,
  permille_full r.disputes_lost r.disputed disputes lost,
)

-- More lost disputes never raise the score, and more completions never lower it.
pub score_monotone :
    (r : ReputationCounters) (lost done : ℕ)
    → r.disputes_lost ≤ lost
    → r.completed ≤ done
    → (score (record r { disputes_lost = lost }) ≤ score r)
      × (score r ≤ score (record r { completed = done }))
unfolding score
score_monotone r lost done h k = (
  ground (arith, permille_mono r.disputes_lost lost r.disputed h),
  ground (arith, permille_mono r.completed done r.initiated k),
)
