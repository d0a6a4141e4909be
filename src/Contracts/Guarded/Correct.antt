-- ===== src/Contracts/Guarded/Correct.antt =====
-- The chains and the wrapped transfer of agent_contracts/src/guarded.rs compute the u128 and u64
-- operations that they stand for.
use transformer_vm_bank.Base.{
  ℕ, suc, ◌+◌, ◌-◌, ◌*◌, ◌/◌, ◌%◌, ◌^◌, ◌≤◌, ◌<◌, ◌≡◌, refl, sym, ap, ◌∙◌, inl, inr, [], ◌∷◌, ◌++◌,
  ◌&&◌, arith, ltb, leb, if◌then◌else◌, length, replicate, Result, ok, Bool-cases, leb→le,
}
use transformer_vm_bank.Bytes.{Bytes, AreBytes, from_le_bytes, to_le_bytes}
use transformer_vm_bank.Bytes.Encode.{pow256-suc, from_le_bytes-lt, to_le_bytes-wrap}
use native.Mathlib.Nat.{div-div-eq-div-mul}
use transformer_vm_bank.Contracts.Errors.{from_primitive}
use transformer_vm_bank.Contracts.Guarded.{
  sub_chain_from, add_chain_from, u128_sub_chain, u128_add_chain, no_op_output, wrapped_transfer,
}
use transformer_vm_bank.Ternary.ByteAdd
use transformer_vm_bank.Ternary.ByteAdd.Correct.{run-adds}
use transformer_vm_bank.Ternary.ByteSub
use transformer_vm_bank.Ternary.ByteSub.Correct.{run-subtracts}
use transformer_vm_bank.Ternary.Errors.{Failure}
use transformer_vm_bank.Ternary.Network.{TernaryNetwork}
use transformer_vm_bank.Ternary.TransferCheck
use transformer_vm_bank.Ternary.TransferFinalize

-- The borrow of a subtraction.
abbrev pub borrow_bit : ℕ → ℕ → ℕ
borrow_bit a b = if ltb a b then 1 else 0

module _ (net : TernaryNetwork) where
  add_chain_from-adds :
      (a b : Bytes) (carry : ℕ)
      → net.layers ≡ ByteAdd.build_layers
      → AreBytes a
      → AreBytes b
      → length a ≡ length b
      → carry ≤ 1
      → add_chain_from net carry a b
        ≡ ok (
          to_le_bytes (length a) (from_le_bytes a + from_le_bytes b + carry),
          (from_le_bytes a + from_le_bytes b + carry) / 256 ^ length a,
        )
  unfolding add_chain_from from_le_bytes to_le_bytes
  add_chain_from-adds [] [] carry built ha hb len hc = ap (λ w. ok ([], w)) (omega arith)
  add_chain_from-adds [] (y ∷ b) carry built ha hb len hc = absurd (omega arith)
  add_chain_from-adds (x ∷ a) [] carry built ha hb len hc = absurd (omega arith)
  add_chain_from-adds (x ∷ a) (y ∷ b) carry built ha hb len hc =
      let step = run-adds net x y carry built ha.0 hb.0 hc in
      let next = (x + y + carry) / 256 in
      let rest =
        add_chain_from-adds a b next built ha.1 hb.1 (omega arith) (omega (arith, ha.0, hb.0)) in
      let low : (x + y + carry) % 256
          ≡ (x + 256 * from_le_bytes a + (y + 256 * from_le_bytes b) + carry) % 256 =
        omega arith in
      let high : from_le_bytes a + from_le_bytes b + next
          ≡ (x + 256 * from_le_bytes a + (y + 256 * from_le_bytes b) + carry) / 256 =
        omega arith in
      let sum = x + 256 * from_le_bytes a + (y + 256 * from_le_bytes b) + carry in
      let top : sum / 256 / 256 ^ length a ≡ sum / 256 ^ suc (length a) =
        div-div-eq-div-mul sum 256 (256 ^ length a)
        ∙ ap (λ p. sum / p) (sym (pow256-suc (length a))) in
      rw (step, rest, low, high, top) refl

  sub_chain_from-subtracts :
      (a b : Bytes) (borrow : ℕ)
      → net.layers ≡ ByteSub.build_layers
      → AreBytes a
      → AreBytes b
      → length a ≡ length b
      → borrow ≤ 1
      → sub_chain_from net borrow a b
        ≡ ok (
          to_le_bytes (length a) (from_le_bytes a + 256 ^ length a - from_le_bytes b - borrow),
          borrow_bit (from_le_bytes a) (from_le_bytes b + borrow),
        )
  unfolding sub_chain_from from_le_bytes to_le_bytes
  sub_chain_from-subtracts [] [] borrow built ha hb len hc = ap (λ w. ok ([], w)) (ground arith)
  sub_chain_from-subtracts [] (y ∷ b) borrow built ha hb len hc = absurd (omega arith)
  sub_chain_from-subtracts (x ∷ a) [] borrow built ha hb len hc = absurd (omega arith)
  sub_chain_from-subtracts (x ∷ a) (y ∷ b) borrow built ha hb len hc =
      let n = length a in
      let u = from_le_bytes a in
      let v = from_le_bytes b in
      let p = 256 ^ n in
      let same : n ≡ length b = omega arith in
      let room : v < p = rw same (from_le_bytes-lt b hb.1) in
      let power : 256 ^ suc n ≡ 256 * p = pow256-suc n in
      let next : ℕ = borrow_bit x (y + borrow) in
      let bit : next ≤ 1 = ground arith in
      let digit = (x + 256 - y - borrow) % 256 in
      let split : x + 256 * next ≡ digit + y + borrow = ground (arith, ha.0, hb.0) in
      let difference = x + 256 * u + 256 ^ suc n - (y + 256 * v) - borrow in
      let low : digit ≡ difference % 256 = omega arith in
      let high : u + p - v - next ≡ difference / 256 = omega arith in
      let last : borrow_bit u (v + next) ≡ borrow_bit (x + 256 * u) (y + 256 * v + borrow) =
        ground arith in
      let step = run-subtracts net x y borrow built ha.0 hb.0 hc in
      let rest = sub_chain_from-subtracts a b next built ha.1 hb.1 same bit in
      rw (step, rest, low, high, last) refl

pub from_primitive-ok {ℓ} :
    {A : Type ℓ} {r : Result Failure A} {a : A} → r ≡ ok a → from_primitive r ≡ ok a
from_primitive-ok e = rw e refl

pub u128_sub_chain-subtracts :
    (net : TernaryNetwork) (a b : Bytes)
    → net.layers ≡ ByteSub.build_layers
    → AreBytes a
    → AreBytes b
    → length a ≡ 16
    → length b ≡ 16
    → from_le_bytes b ≤ from_le_bytes a
    → u128_sub_chain net a b ≡ ok (to_le_bytes 16 (from_le_bytes a - from_le_bytes b), 0)
unfolding u128_sub_chain
u128_sub_chain-subtracts net a b built ha hb la lb h =
    let x = from_le_bytes a in
    let y = from_le_bytes b in
    let computed : sub_chain_from net 0 a b
        ≡ ok (to_le_bytes 16 (x + 256 ^ 16 - y - 0), borrow_bit x (y + 0)) =
      rw la at (sub_chain_from-subtracts net a b 0 built ha hb (omega arith) (omega arith)) in
    let wrapped : (x + 256 ^ 16 - y - 0) % 256 ^ 16 ≡ (x - y) % 256 ^ 16 = omega arith in
    let same : to_le_bytes 16 (x + 256 ^ 16 - y - 0) ≡ to_le_bytes 16 (x - y) =
      to_le_bytes-wrap 16 (x + 256 ^ 16 - y - 0)
      ∙ ap (to_le_bytes 16) wrapped
      ∙ sym (to_le_bytes-wrap 16 (x - y)) in
    let borrow : borrow_bit x (y + 0) ≡ 0 = ground arith in rw (computed, same, borrow) refl

pub u128_add_chain-adds :
    (net : TernaryNetwork) (a b : Bytes)
    → net.layers ≡ ByteAdd.build_layers
    → AreBytes a
    → AreBytes b
    → length a ≡ 16
    → length b ≡ 16
    → u128_add_chain net a b
      ≡ ok (
        to_le_bytes 16 (from_le_bytes a + from_le_bytes b),
        (from_le_bytes a + from_le_bytes b) / 2 ^ 128,
      )
unfolding u128_add_chain
u128_add_chain-adds net a b built ha hb la lb =
    let sum = from_le_bytes a + from_le_bytes b in
    let computed = add_chain_from-adds net a b 0 built ha hb (omega arith) (omega arith) in
    let zero_carry : sum + 0 ≡ sum = omega arith in computed ∙ rw (la, zero_carry) refl

-- What a transfer is on numbers: the balances and the nonce after it, or zeros if the balance does
-- not cover the amount or the recipient's balance would leave a u128.
unfoldable pub ledger_transfer : (from to amount nonce : ℕ) → Bytes
ledger_transfer from to amount nonce =
    if leb amount from && ltb (to + amount) (2 ^ 128)
    then to_le_bytes 16 (from - amount)
      ++ (to_le_bytes 16 (to + amount) ++ to_le_bytes 8 ((nonce + 1) % 2 ^ 64))
    else replicate 40 0

pub from_le_bytes-u128 : (b : Bytes) → AreBytes b → length b ≡ 16 → from_le_bytes b < 2 ^ 128
from_le_bytes-u128 b h len = rw len at (from_le_bytes-lt b h)

-- A pair of networks of the layers that the two `build` functions make.
pub record AreBuilt (byte_add byte_sub : TernaryNetwork) : Type 0 where
  pub adder : byte_add.layers ≡ ByteAdd.build_layers
  pub subtracter : byte_sub.layers ≡ ByteSub.build_layers

pub wrapped_transfer-is_ledger_transfer :
    (byte_add byte_sub : TernaryNetwork) (from to amount nonce : Bytes)
    → AreBuilt byte_add byte_sub
    → AreBytes from
    → AreBytes to
    → AreBytes amount
    → AreBytes nonce
    → length from ≡ 16
    → length to ≡ 16
    → length amount ≡ 16
    → length nonce ≡ 8
    → wrapped_transfer byte_add byte_sub from to amount nonce
      ≡ ok (
          ledger_transfer
            (from_le_bytes from)
            (from_le_bytes to)
            (from_le_bytes amount)
            (from_le_bytes nonce))
unfolding wrapped_transfer ledger_transfer no_op_output
wrapped_transfer-is_ledger_transfer byte_add byte_sub from to amount nonce nets hf ht ha hn lf lt la
      ln =
    let x = from_le_bytes from in
    let y = from_le_bytes to in
    let m = from_le_bytes amount in
    let check =
      from_primitive-ok
        (TransferCheck.run-compares byte_sub from amount nets.subtracter hf ha (omega arith)) in
    elim (Bool-cases (leb m x)) [
      | inr poor ↦ rw (check, poor) refl
      | inl covered ↦
          let sub =
            u128_sub_chain-subtracts byte_sub from amount nets.subtracter hf ha lf la
              (leb→le m x covered) in
          let add = u128_add_chain-adds byte_add to amount nets.adder ht ha lt la in
          let next : TransferFinalize.run byte_add nonce
              ≡ ok (to_le_bytes 8 ((from_le_bytes nonce + 1) % 2 ^ 64)) =
            rw ln at (TransferFinalize.run-increments byte_add nonce nets.adder hn) in
          let final = from_primitive-ok next in
          elim (Bool-cases (ltb (y + m) (2 ^ 128))) [
            | inl fits ↦
                let carry : (y + m) / 2 ^ 128 ≡ 0 = ground arith in
                rw (check, covered, sub, add, carry, final, fits) refl
            | inr over ↦
                let carry : (y + m) / 2 ^ 128 ≡ 1 =
                  ground (arith, from_le_bytes-u128 to ht lt, from_le_bytes-u128 amount ha la) in
                rw (check, covered, sub, add, carry, over) refl
          ]
    ]
