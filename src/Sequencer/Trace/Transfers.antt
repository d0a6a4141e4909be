-- ===== src/Sequencer/Trace/Transfers.antt =====
-- What a transfer, a mint and a burn do to the accounts they are given.
use transformer_vm_bank.Base.{
  ℕ, ap, ◌+◌, ◌-◌, ◌%◌, ◌^◌, ◌<◌, ◌≤◌, ◌≡◌, ◌∙◌, ◌⊎◌, inl, inr, true, false, [], ◌∷◌, arith,
}
use transformer_vm_bank.Bytes.{Bytes, from_le_bytes}
use transformer_vm_bank.Account.{
  Account, default, pubkey, balance, is_frozen, nonce, last_active, set_balance, set_nonce,
}
use transformer_vm_bank.Account.Flag.{IsAccount, balance-raw}
use transformer_vm_bank.Account.Fields.{
  set_balance_lem, set_nonce_lem, set_last_active_lem, set_balance-IsAccount, set_nonce-IsAccount,
  set_last_active-IsAccount,
}
use transformer_vm_bank.Sequencer.Trace.{Witness, traced, cannot_pay, debit, credit, transfer}

-- What the sender of a transfer becomes.
pub record Debited (epoch amount : ℕ) (from from' : Account) : Type 0 where
  pub paid : balance from' ≡ balance from - amount
  pub counted : nonce from' ≡ (nonce from + 1) % 2 ^ 64
  pub active : last_active from' ≡ epoch
  pub same_flag : is_frozen from' ≡ is_frozen from
  pub same_pubkey : pubkey from' ≡ pubkey from

-- What its receiver becomes.
pub record Credited (epoch amount : ℕ) (to to' : Account) : Type 0 where
  pub received : balance to' ≡ balance to + amount
  pub same_nonce : nonce to' ≡ nonce to
  pub active : last_active to' ≡ epoch
  pub same_flag : is_frozen to' ≡ is_frozen to
  pub same_pubkey : pubkey to' ≡ pubkey to

balance-lt : (a : Account) → IsAccount a → balance a < 2 ^ 127
balance-lt a v = omega (arith, balance-raw v)

-- `a` with a balance that leaves the flag alone, and then active at `epoch`.
set_balance_small :
    (n : ℕ) (a : Account)
    → IsAccount a
    → n < 2 ^ 127
    → (balance (set_balance n a) ≡ n) × (is_frozen (set_balance n a) ≡ is_frozen a)
set_balance_small n a v h =
    let (bal, flag, _) = set_balance_lem n a v (omega arith) in
    (omega (arith, bal), ground (arith, flag))

pub debit-Debited :
    (epoch amount : ℕ) (from : Account)
    → IsAccount from
    → epoch < 2 ^ 64
    → Debited epoch amount from (debit epoch amount from)
unfolding debit
debit-Debited epoch amount from v h =
    let small : balance from - amount < 2 ^ 127 = omega (arith, balance-lt from v) in
    let a1 = set_balance (balance from - amount) from in
    let v1 = set_balance-IsAccount (balance from - amount) from v in
    let n = (nonce a1 + 1) % 2 ^ 64 in
    let v2 = set_nonce-IsAccount n a1 v1 in
    let (bal, flag) = set_balance_small (balance from - amount) from v small in
    let same = (set_balance_lem (balance from - amount) from v (omega arith)).2 in
    let (non, pk, bal2, flag2, act) = set_nonce_lem n a1 v1 (omega arith) in
    let (act3, pk3, bal3, flag3, non3) = set_last_active_lem epoch (set_nonce n a1) v2 h in
    record {
      paid = bal3 ∙ bal2 ∙ bal;
      counted = non3 ∙ non ∙ ap (λ m. (m + 1) % 2 ^ 64) same.same_nonce;
      active = act3;
      same_flag = flag3 ∙ flag2 ∙ flag;
      same_pubkey = pk3 ∙ pk ∙ same.same_pubkey;
    }

pub credit-Credited :
    (epoch amount : ℕ) (to : Account)
    → IsAccount to
    → epoch < 2 ^ 64
    → balance to + amount < 2 ^ 127
    → Credited epoch amount to (credit epoch amount to)
unfolding credit
credit-Credited epoch amount to v h small =
    let b = (balance to + amount) % 2 ^ 128 in
    let a1 = set_balance b to in
    let (bal, flag) = set_balance_small b to v (omega arith) in
    let same = (set_balance_lem b to v (omega arith)).2 in
    let (act, pk, bal2, flag2, non) =
      set_last_active_lem epoch a1 (set_balance-IsAccount b to v) h in
    record {
      received = bal2 ∙ bal ∙ omega arith;
      same_nonce = non ∙ same.same_nonce;
      active = act;
      same_flag = flag2 ∙ flag;
      same_pubkey = pk ∙ same.same_pubkey;
    }

pub debit-IsAccount :
    (epoch amount : ℕ) (from : Account) → IsAccount from → IsAccount (debit epoch amount from)
unfolding debit
debit-IsAccount epoch amount from v =
    set_last_active-IsAccount epoch _
      (set_nonce-IsAccount _ _ (set_balance-IsAccount (balance from - amount) from v))

pub credit-IsAccount :
    (epoch amount : ℕ) (to : Account) → IsAccount to → IsAccount (credit epoch amount to)
unfolding credit
credit-IsAccount epoch amount to v =
    set_last_active-IsAccount epoch _ (set_balance-IsAccount ((balance to + amount) % 2 ^ 128) to v)

-- A witness of a transfer.
abbrev pub payment : (epoch : ℕ) (amount : Bytes) (from to : Account) → Witness
payment epoch amount from to = record {
  epoch = epoch;
  accounts = from ∷ to ∷ [];
  amount = amount;
  flag = 0;
}

-- A transfer succeeds if the sender is not frozen and has the amount, and the receiver's balance stays
-- below 2 ^ 127: the sender pays the amount and counts a nonce, the receiver gets it, both are active
-- at the epoch, no flag and no key changes, and the two balances keep their sum.
pub transfer-conserves :
    (epoch : ℕ) (amount : Bytes) (from to : Account)
    → IsAccount from
    → IsAccount to
    → epoch < 2 ^ 64
    → balance to + from_le_bytes amount < 2 ^ 127
    → is_frozen from ≡ false
    → from_le_bytes amount ≤ balance from
    → (from' to' : Account) × (transfer (payment epoch amount from to)
        ≡ traced (from' ∷ to' ∷ []) true)
      × Debited epoch (from_le_bytes amount) from from'
      × Credited epoch (from_le_bytes amount) to to'
      × (balance from' + balance to' ≡ balance from + balance to)
unfolding transfer cannot_pay
transfer-conserves epoch amount from to vf vt h small free enough =
    let n = from_le_bytes amount in
    let d = debit-Debited epoch n from vf h in
    let r = credit-Credited epoch n to vt h small in
    (debit epoch n from, credit epoch n to, ground arith, d, r, omega (arith, d.paid, r.received))

-- A transfer from a frozen account, or of more than the sender has, is no success, and its answer
-- holds nothing of the accounts: two blank ones.
pub transfer-refused :
    (epoch : ℕ) (amount : Bytes) (from to : Account)
    → (is_frozen from ≡ true) ⊎ (balance from < from_le_bytes amount)
    → transfer (payment epoch amount from to) ≡ traced (default ∷ default ∷ []) false
unfolding transfer cannot_pay
transfer-refused epoch amount from to (inl frozen) = ground arith
transfer-refused epoch amount from to (inr poor) = ground arith

-- A transfer of less than 2 ^ 127, from an account that is not frozen and has the amount, that brings
-- the receiver's balance to 2 ^ 127 or more succeeds, leaves the receiver frozen, and stores a balance
-- that is 2 ^ 127 too small.
pub transfer_overflow_freezes :
    (epoch : ℕ) (amount : Bytes) (from to : Account)
    → IsAccount to
    → epoch < 2 ^ 64
    → from_le_bytes amount < 2 ^ 127
    → is_frozen from ≡ false
    → from_le_bytes amount ≤ balance from
    → 2 ^ 127 ≤ balance to + from_le_bytes amount
    → (from' to' : Account) × (transfer (payment epoch amount from to)
        ≡ traced (from' ∷ to' ∷ []) true)
      × (is_frozen to' ≡ true)
      × (balance to' + 2 ^ 127 ≡ balance to + from_le_bytes amount)
unfolding transfer cannot_pay credit
transfer_overflow_freezes epoch amount from to vt h fits free enough over =
    let n = from_le_bytes amount in
    let b = (balance to + n) % 2 ^ 128 in
    let a1 = set_balance b to in
    let (bal, flag, _) = set_balance_lem b to vt (omega arith) in
    let (_, _, bal2, flag2, _) = set_last_active_lem epoch a1 (set_balance-IsAccount b to vt) h in
    (
      debit epoch n from,
      credit epoch n to,
      ground arith,
      flag2 ∙ ground (arith, flag, balance-lt to vt),
      omega (arith, bal, bal2, balance-lt to vt),
    )
