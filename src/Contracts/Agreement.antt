-- ===== src/Contracts/Agreement.antt =====
-- The transfer contracts of agent_contracts do on their bytes what a ledger does on numbers.
use transformer_vm_bank.Base.{
  ℕ, zero, suc, ◌+◌, ◌≤◌, ◌<◌, ◌≡◌, refl, inl, inr, Bool, ◌&&◌, ◌||◌, ◌++◌, [], ◌∷◌, arith, leb,
  ◌==◌, if◌then◌else◌, length, length-append, All-append, replicate, get_or, ok, Bool-cases,
}
use transformer_vm_bank.Bytes.{Bytes, AreBytes, from_le_bytes}
use transformer_vm_bank.Bytes.Slice.{slice, slice-AreBytes, length-slice}
use transformer_vm_bank.Contracts.Guarded.{wrapped_transfer, u64_ge, no_op_output}
use transformer_vm_bank.Contracts.Guarded.Correct.{
  AreBuilt, ledger_transfer, wrapped_transfer-is_ledger_transfer, from_primitive-ok,
}
use transformer_vm_bank.Contracts.Standard.{StandardContract}
use transformer_vm_bank.Contracts.Transfer
use transformer_vm_bank.Contracts.Escrow.{run_create, run_release, run_refund}
use transformer_vm_bank.Contracts.Conditional.{run_time_locked, run_multisig, run_conditional}
use transformer_vm_bank.Ternary.ByteSub
use transformer_vm_bank.Ternary.Network.{TernaryNetwork}
use transformer_vm_bank.Ternary.TransferCheck

-- The number in the `n` bytes from `off` on.
abbrev pub number_at : ℕ → ℕ → Bytes → ℕ
number_at off n input = from_le_bytes (slice off n input)

-- A contract as `build` makes it.
abbrev pub IsBuilt : StandardContract → Type 0
IsBuilt contract = AreBuilt contract.byte_add contract.byte_sub

-- Zero bytes at the top leave a number as it is.
from_le_bytes-pad : (a : Bytes) (n : ℕ) → from_le_bytes (a ++ replicate n 0) ≡ from_le_bytes a
unfolding from_le_bytes
from_le_bytes-pad [] zero = refl
from_le_bytes-pad [] (suc n) = omega (arith, from_le_bytes-pad [] n)
from_le_bytes-pad (x ∷ a) n = omega (arith, from_le_bytes-pad a n)

zeros-AreBytes : (n : ℕ) → AreBytes (replicate n 0)
zeros-AreBytes zero = tt
zeros-AreBytes (suc n) = (omega arith, zeros-AreBytes n)

pub u64_ge-compares :
    (net : TernaryNetwork) (a b : Bytes)
    → net.layers ≡ ByteSub.build_layers
    → AreBytes a
    → AreBytes b
    → length a ≡ length b
    → u64_ge net a b ≡ ok (if leb (from_le_bytes b) (from_le_bytes a) then 1 else 0)
unfolding u64_ge
u64_ge-compares net a b built ha hb len =
    let padded = from_primitive-ok (
      TransferCheck.run-compares net (a ++ replicate 8 0) (b ++ replicate 8 0) built
        (All-append (λ x. x < 256) a (replicate 8 0) ha (zeros-AreBytes 8))
        (All-append (λ x. x < 256) b (replicate 8 0) hb (zeros-AreBytes 8))
        (omega (arith, length-append a (replicate 8 0), length-append b (replicate 8 0), len))) in
    rw (from_le_bytes-pad a 8, from_le_bytes-pad b 8) at padded

-- The three flags are bits, and at least two of them are 1.
abbrev pub two_of_three : (s0 s1 s2 : ℕ) → Bool
two_of_three s0 s1 s2 =
    leb s0 1
    && (leb s1 1
        && (leb s2 1 && (s0 == 1 && s1 == 1 || (s0 == 1 && s2 == 1 || s1 == 1 && s2 == 1))))

-- The transfer that the contracts run, with the nonce at `off`.
pub transfer_at :
    (byte_add byte_sub : TernaryNetwork) (input : Bytes)
    → AreBuilt byte_add byte_sub
    → AreBytes input
    → (off : ℕ) → off + 8 ≤ length input
    → 48 ≤ length input
    → wrapped_transfer byte_add byte_sub
        (slice 0 16 input)
        (slice 16 16 input)
        (slice 32 16 input)
        (slice off 8 input)
      ≡ ok (
          ledger_transfer
            (number_at 0 16 input)
            (number_at 16 16 input)
            (number_at 32 16 input)
            (number_at off 8 input))
transfer_at byte_add byte_sub input nets bytes off h h48 =
    wrapped_transfer-is_ledger_transfer byte_add byte_sub (slice 0 16 input) (slice 16 16 input)
      (slice 32 16 input) (slice off 8 input) nets (slice-AreBytes 0 16 input bytes)
      (slice-AreBytes 16 16 input bytes) (slice-AreBytes 32 16 input bytes)
      (slice-AreBytes off 8 input bytes) (length-slice 0 16 input (omega arith))
      (length-slice 16 16 input (omega arith)) (length-slice 32 16 input (omega arith))
      (length-slice off 8 input h)

module _ (contract : StandardContract) (input : Bytes) (nets : IsBuilt contract)
    (bytes : AreBytes input) where
  pub transfer-agrees :
      length input ≡ 56
      → Transfer.run contract input
        ≡ ok (
            ledger_transfer
              (number_at 0 16 input)
              (number_at 16 16 input)
              (number_at 32 16 input)
              (number_at 48 8 input))
  unfolding Transfer.run
  transfer-agrees len =
      rw
        (
          len,
          transfer_at contract.byte_add contract.byte_sub input nets bytes 48 (omega arith)
              (omega arith),
        )
        refl

  pub escrow_release-agrees :
      length input ≡ 57
      → run_release contract input
        ≡ ok (
            if get_or input 48 0 == 1
            then ledger_transfer
                (number_at 0 16 input)
                (number_at 16 16 input)
                (number_at 32 16 input)
                (number_at 49 8 input)
            else replicate 40 0)
  unfolding run_release no_op_output
  escrow_release-agrees len = elim (Bool-cases (get_or input 48 0 == 1)) [
    | inl set ↦
        rw
          (
            len,
            set,
            transfer_at contract.byte_add contract.byte_sub input nets bytes 49 (omega arith)
                (omega arith),
          )
          refl
    | inr unset ↦ rw (len, unset) refl
  ]

  pub escrow_refund-agrees :
      length input ≡ 57
      → run_refund contract input
        ≡ ok (
            if get_or input 48 0 == 1
            then ledger_transfer
                (number_at 0 16 input)
                (number_at 16 16 input)
                (number_at 32 16 input)
                (number_at 49 8 input)
            else replicate 40 0)
  unfolding run_refund no_op_output
  escrow_refund-agrees len = elim (Bool-cases (get_or input 48 0 == 1)) [
    | inl set ↦
        rw
          (
            len,
            set,
            transfer_at contract.byte_add contract.byte_sub input nets bytes 49 (omega arith)
                (omega arith),
          )
          refl
    | inr unset ↦ rw (len, unset) refl
  ]

  pub escrow_create-agrees :
      length input ≡ 56
      → run_create contract input
        ≡ ok (
            ledger_transfer
              (number_at 0 16 input)
              (number_at 16 16 input)
              (number_at 32 16 input)
              (number_at 48 8 input))
  unfolding run_create
  escrow_create-agrees len =
      rw
        (
          len,
          transfer_at contract.byte_add contract.byte_sub input nets bytes 48 (omega arith)
              (omega arith),
        )
        refl

  pub conditional_payment-agrees :
      length input ≡ 57
      → run_conditional contract input
        ≡ ok (
            if get_or input 56 0 == 1
            then ledger_transfer
                (number_at 0 16 input)
                (number_at 16 16 input)
                (number_at 32 16 input)
                (number_at 48 8 input)
            else replicate 40 0)
  unfolding run_conditional no_op_output
  conditional_payment-agrees len = elim (Bool-cases (get_or input 56 0 == 1)) [
    | inl set ↦
        rw
          (
            len,
            set,
            transfer_at contract.byte_add contract.byte_sub input nets bytes 48 (omega arith)
                (omega arith),
          )
          refl
    | inr unset ↦ rw (len, unset) refl
  ]

  pub time_locked-agrees :
      length input ≡ 72
      → run_time_locked contract input
        ≡ ok (
            if leb (number_at 64 8 input) (number_at 56 8 input)
            then ledger_transfer
                (number_at 0 16 input)
                (number_at 16 16 input)
                (number_at 32 16 input)
                (number_at 48 8 input)
            else replicate 40 0)
  unfolding run_time_locked no_op_output
  time_locked-agrees len =
      let now = length-slice 56 8 input (omega arith) in
      let unlock = length-slice 64 8 input (omega arith) in
      let check =
        u64_ge-compares contract.byte_sub (slice 56 8 input) (slice 64 8 input) nets.subtracter
          (slice-AreBytes 56 8 input bytes) (slice-AreBytes 64 8 input bytes) (omega arith) in
      elim (Bool-cases (leb (number_at 64 8 input) (number_at 56 8 input))) [
        | inl open' ↦
            rw
              (
                len,
                check,
                open',
                transfer_at contract.byte_add contract.byte_sub input nets bytes 48 (omega arith)
                    (omega arith),
              )
              refl
        | inr locked ↦ rw (len, check, locked) refl
      ]

  pub multisig-agrees :
      length input ≡ 59
      → run_multisig contract input
        ≡ ok (
            if two_of_three (get_or input 56 0) (get_or input 57 0) (get_or input 58 0)
            then ledger_transfer
                (number_at 0 16 input)
                (number_at 16 16 input)
                (number_at 32 16 input)
                (number_at 48 8 input)
            else replicate 40 0)
  unfolding run_multisig no_op_output
  multisig-agrees len =
      rw
        (
          len,
          transfer_at contract.byte_add contract.byte_sub input nets bytes 48 (omega arith)
              (omega arith),
        )
        (ground arith)
