-- ===== src/Contracts/Built.antt =====
-- The `build` functions of agent_contracts return, and what they return does on its input what a
-- ledger does on numbers.
use transformer_vm_bank.Base.{
  ◌≡◌, refl, ok, Returns, ok-injective, sym, ap, ◌∙◌, length, get_or, replicate, leb, ◌==◌,
  if◌then◌else◌,
}
use transformer_vm_bank.Bytes.{Bytes, AreBytes}
use transformer_vm_bank.Contracts.Agreement.{
  IsBuilt, number_at, two_of_three, transfer-agrees, escrow_release-agrees, time_locked-agrees,
  multisig-agrees,
}
use transformer_vm_bank.Contracts.Guarded.Correct.{ledger_transfer}
use transformer_vm_bank.Contracts.Standard.{StandardContract, build_subnets, build_contract}
use transformer_vm_bank.Contracts.Transfer
use transformer_vm_bank.Contracts.Escrow.{build_release, run_release}
use transformer_vm_bank.Contracts.Conditional.{
  build_time_locked, run_time_locked, build_multisig, run_multisig,
}
use transformer_vm_bank.Crypto.{Crypto}
use transformer_vm_bank.Ternary.ByteAdd.Correct as Adder
use transformer_vm_bank.Ternary.ByteSub.Correct as Subtracter

pub build_contract-returns : (c : Crypto) (name : Bytes) → Returns (build_contract c name)
unfolding build_contract build_subnets
build_contract-returns c name =
    let add = Adder.build-returns c in
    let sub = Subtracter.build-returns c in rw (add.1, sub.1) (_, refl)

pub build_contract-IsBuilt :
    (c : Crypto) (name : Bytes) {contract : StandardContract}
    → build_contract c name ≡ ok contract
    → IsBuilt contract
unfolding build_contract build_subnets
build_contract-IsBuilt c name {contract} e =
    let add = Adder.build-returns c in
    let sub = Subtracter.build-returns c in
    let same = ok-injective (rw (add.1, sub.1) at e) in
    record {
      adder = sym (ap (λ k. k.byte_add.layers) same) ∙ add.2;
      subtracter = sym (ap (λ k. k.byte_sub.layers) same) ∙ sub.2;
    }

module _ (c : Crypto) (contract : StandardContract) (input : Bytes) (bytes : AreBytes input) where
  -- On 56 bytes, the contract that `TransferContract::build` returns answers with the transfer on
  -- numbers of the two balances, the amount and the nonce that the bytes hold: the new balances and
  -- the nonce plus one modulo 2^64, or zeros when the balance does not cover the amount or the
  -- recipient's would pass 2^128 - 1. No network overflows or fails to decode.
  pub transfer-run :
      Transfer.build c ≡ ok contract
      → length input ≡ 56
      → Transfer.run contract input
        ≡ ok (
            ledger_transfer
              (number_at 0 16 input)
              (number_at 16 16 input)
              (number_at 32 16 input)
              (number_at 48 8 input))
  unfolding Transfer.build
  transfer-run built len =
      transfer-agrees contract input (build_contract-IsBuilt c _ built) bytes len

  -- On 57 bytes, the escrow release that `build` returns answers with the same transfer when the
  -- flag byte is 1, and with zeros for every other value of that byte.
  pub escrow_release-run :
      build_release c ≡ ok contract
      → length input ≡ 57
      → run_release contract input
        ≡ ok (
            if get_or input 48 0 == 1
            then ledger_transfer
                (number_at 0 16 input)
                (number_at 16 16 input)
                (number_at 32 16 input)
                (number_at 49 8 input)
            else replicate 40 0)
  unfolding build_release
  escrow_release-run built len =
      escrow_release-agrees contract input (build_contract-IsBuilt c _ built) bytes len

  -- On 72 bytes, the time-locked release that `build` returns answers with the same transfer when
  -- the current time is at least the unlock time, and with zeros otherwise.
  pub time_locked-run :
      build_time_locked c ≡ ok contract
      → length input ≡ 72
      → run_time_locked contract input
        ≡ ok (
            if leb (number_at 64 8 input) (number_at 56 8 input)
            then ledger_transfer
                (number_at 0 16 input)
                (number_at 16 16 input)
                (number_at 32 16 input)
                (number_at 48 8 input)
            else replicate 40 0)
  unfolding build_time_locked
  time_locked-run built len =
      time_locked-agrees contract input (build_contract-IsBuilt c _ built) bytes len

  -- On 59 bytes, the two-of-three contract that `build` returns answers with the same transfer when
  -- the three flags are bits of which at least two are 1, and with zeros otherwise.
  pub multisig-run :
      build_multisig c ≡ ok contract
      → length input ≡ 59
      → run_multisig contract input
        ≡ ok (
            if two_of_three (get_or input 56 0) (get_or input 57 0) (get_or input 58 0)
            then ledger_transfer
                (number_at 0 16 input)
                (number_at 16 16 input)
                (number_at 32 16 input)
                (number_at 48 8 input)
            else replicate 40 0)
  unfolding build_multisig
  multisig-run built len =
      multisig-agrees contract input (build_contract-IsBuilt c _ built) bytes len
