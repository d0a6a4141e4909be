-- ===== src/Contracts/Swap/Correct.antt =====
-- The swap of agent_contracts/src/swap.rs on numbers.
use transformer_vm_bank.Base.{
  ℕ, ◌+◌, ◌-◌, ◌/◌, ◌%◌, ◌≤◌, ◌<◌, ◌^◌, ◌≡◌, refl, sym, ◌∙◌, inl, inr, Bool, true, false, not, ◌&&◌,
  ◌||◌, ◌++◌, arith, ltb, leb, leb→le, ◌==◌, if◌then◌else◌, length, replicate, Result, ok,
  Bool-cases,
}
use transformer_vm_bank.Bytes.{Bytes, AreBytes, to_le_bytes}
use transformer_vm_bank.Bytes.Slice.{slice, slice-AreBytes, length-slice}
use transformer_vm_bank.Contracts.Agreement.{IsBuilt, number_at}
use transformer_vm_bank.Contracts.Built.{build_contract-IsBuilt}
use transformer_vm_bank.Contracts.Errors.{ContractError, from_primitive}
use transformer_vm_bank.Contracts.Guarded.{u128_sub_chain, u128_add_chain}
use transformer_vm_bank.Contracts.Guarded.Correct.{
  u128_sub_chain-subtracts, u128_add_chain-adds, from_primitive-ok, from_le_bytes-u128,
}
use transformer_vm_bank.Contracts.Standard.{StandardContract}
use transformer_vm_bank.Contracts.Swap.{run, exchange, build}
use transformer_vm_bank.Crypto.{Crypto}
use transformer_vm_bank.Ternary.TransferCheck
use transformer_vm_bank.Ternary.TransferFinalize

-- The exchange on numbers.
unfoldable pub ledger_swap :
    (sender_in sender_out recipient_in recipient_out amount_in amount_out nonce : ℕ) → Bytes
ledger_swap sender_in sender_out recipient_in recipient_out amount_in amount_out nonce =
    if leb amount_in sender_in
      && (leb amount_out recipient_out
          && (ltb (sender_out + amount_out) (2 ^ 128) && ltb (recipient_in + amount_in) (2 ^ 128)))
    then to_le_bytes 16 (sender_in - amount_in)
      ++ (to_le_bytes 16 (sender_out + amount_out)
          ++ (to_le_bytes 16 (recipient_in + amount_in)
              ++ (to_le_bytes 16 (recipient_out - amount_out)
                  ++ to_le_bytes 8 ((nonce + 1) % 2 ^ 64))))
    else replicate 72 0

-- The carry of a sum of two u128s is 1 exactly when the sum does not fit.
carry_of :
    (a b : ℕ) → a < 2 ^ 128 → b < 2 ^ 128 → ((a + b) / 2 ^ 128 == 1) ≡ not (ltb (a + b) (2 ^ 128))
carry_of a b ha hb = ground arith

either_fails :
    (p q : Bool) (x y : Bytes)
    → ◌≡◌ {A = Result ContractError Bytes}
        (if not p || not q then ok x else ok y)
        (ok (if p && q then y else x))
either_fails true true x y = refl
either_fails true false x y = refl
either_fails false true x y = refl
either_fails false false x y = refl

module _ (contract : StandardContract) (input : Bytes) (nets : IsBuilt contract)
    (bytes : AreBytes input) (len : length input ≡ 104) where
  is_bytes : (off : ℕ) → AreBytes (slice off 16 input)
  is_bytes off = slice-AreBytes off 16 input bytes

  is_u128 : (off : ℕ) → off + 16 ≤ 104 → length (slice off 16 input) ≡ 16
  is_u128 off h = length-slice off 16 input (omega arith)

  check_at :
      (a b : ℕ)
      → a + 16 ≤ 104
      → b + 16 ≤ 104
      → from_primitive (TransferCheck.run contract.byte_sub (slice a 16 input) (slice b 16 input))
        ≡ ok (if leb (number_at b 16 input) (number_at a 16 input) then 1 else 0)
  check_at a b ha hb = from_primitive-ok (
      TransferCheck.run-compares contract.byte_sub (slice a 16 input) (slice b 16 input)
        nets.subtracter (is_bytes a) (is_bytes b) (is_u128 a ha ∙ sym (is_u128 b hb)))

  sum_at :
      (a b : ℕ)
      → a + 16 ≤ 104
      → b + 16 ≤ 104
      → u128_add_chain contract.byte_add (slice a 16 input) (slice b 16 input)
        ≡ ok (
          to_le_bytes 16 (number_at a 16 input + number_at b 16 input),
          (number_at a 16 input + number_at b 16 input) / 2 ^ 128,
        )
  sum_at a b ha hb =
      u128_add_chain-adds contract.byte_add (slice a 16 input) (slice b 16 input) nets.adder
        (is_bytes a) (is_bytes b) (is_u128 a ha) (is_u128 b hb)

  difference_at :
      (a b : ℕ)
      → a + 16 ≤ 104
      → b + 16 ≤ 104
      → leb (number_at b 16 input) (number_at a 16 input) ≡ true
      → u128_sub_chain contract.byte_sub (slice a 16 input) (slice b 16 input)
        ≡ ok (to_le_bytes 16 (number_at a 16 input - number_at b 16 input), 0)
  difference_at a b ha hb covered =
      u128_sub_chain-subtracts contract.byte_sub (slice a 16 input) (slice b 16 input)
        nets.subtracter (is_bytes a) (is_bytes b) (is_u128 a ha) (is_u128 b hb)
        (leb→le (number_at b 16 input) (number_at a 16 input) covered)

  carry_at :
      (a b : ℕ)
      → a + 16 ≤ 104
      → b + 16 ≤ 104
      → ((number_at a 16 input + number_at b 16 input) / 2 ^ 128 == 1)
        ≡ not (ltb (number_at a 16 input + number_at b 16 input) (2 ^ 128))
  carry_at a b ha hb =
      carry_of (number_at a 16 input) (number_at b 16 input)
        (from_le_bytes-u128 (slice a 16 input) (is_bytes a) (is_u128 a ha))
        (from_le_bytes-u128 (slice b 16 input) (is_bytes b) (is_u128 b hb))

  nonce_at :
      from_primitive (TransferFinalize.run contract.byte_add (slice 96 8 input))
      ≡ ok (to_le_bytes 8 ((number_at 96 8 input + 1) % 2 ^ 64))
  nonce_at = from_primitive-ok (
      rw (length-slice 96 8 input (omega arith)) at (
        TransferFinalize.run-increments contract.byte_add (slice 96 8 input) nets.adder
          (slice-AreBytes 96 8 input bytes)))

  swap-agrees :
      run contract input
      ≡ ok (
          ledger_swap
            (number_at 0 16 input)
            (number_at 16 16 input)
            (number_at 32 16 input)
            (number_at 48 16 input)
            (number_at 64 16 input)
            (number_at 80 16 input)
            (number_at 96 8 input))
  unfolding run exchange ledger_swap
  swap-agrees =
      let check1 = check_at 0 64 (omega arith) (omega arith) in
      let check2 = check_at 48 80 (omega arith) (omega arith) in
      elim (Bool-cases (leb (number_at 64 16 input) (number_at 0 16 input))) [
        | inr poor ↦ rw (len, check1, poor) refl
        | inl covered ↦ elim (Bool-cases (leb (number_at 80 16 input) (number_at 48 16 input))) [
          | inr poor ↦ rw (len, check1, covered, check2, poor) refl
          | inl covered2 ↦
              rw
                (
                  len,
                  check1,
                  covered,
                  check2,
                  covered2,
                  difference_at 0 64 (omega arith) (omega arith) covered,
                  sum_at 16 80 (omega arith) (omega arith),
                  sum_at 32 64 (omega arith) (omega arith),
                  difference_at 48 80 (omega arith) (omega arith) covered2,
                  carry_at 16 80 (omega arith) (omega arith),
                  carry_at 32 64 (omega arith) (omega arith),
                  nonce_at,
                )
                (either_fails _ _ _ _)
        ]
      ]

-- On 104 bytes, the swap that `build` returns moves the first amount of the first asset from sender
-- to recipient and the second amount of the second asset back, and adds one to the nonce modulo
-- 2^64; it answers with zeros when either balance does not cover its amount or either sum would
-- pass 2^128 - 1. No network overflows or fails to decode.
pub swap-run :
    (c : Crypto) (contract : StandardContract) (input : Bytes)
    → AreBytes input
    → build c ≡ ok contract
    → length input ≡ 104
    → run contract input
      ≡ ok (
          ledger_swap
            (number_at 0 16 input)
            (number_at 16 16 input)
            (number_at 32 16 input)
            (number_at 48 16 input)
            (number_at 64 16 input)
            (number_at 80 16 input)
            (number_at 96 8 input))
unfolding build
swap-run c contract input bytes built len =
    swap-agrees contract input (build_contract-IsBuilt c _ built) bytes len
