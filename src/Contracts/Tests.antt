-- ===== src/Contracts/Tests.antt =====
-- Runs of the standard contracts on small inputs, and the examples of their theorems.
mod Disputes
use transformer_vm_bank.Base.{
  ◌≡◌, refl, ◌<◌, [], ◌∷◌, ◌++◌, ok, arith, replicate, length, All-append, get_or, leb,
  if◌then◌else◌,
}
use transformer_vm_bank.Bytes.{Bytes, AreBytes, as_bytes, to_le_bytes, from_le_bytes, bytes_eq}
use transformer_vm_bank.Bytes.Encode.{to_le_bytes-AreBytes}
use transformer_vm_bank.Contracts.Agreement.{number_at, two_of_three}
use transformer_vm_bank.Contracts.Built.{
  build_contract-returns, transfer-run, time_locked-run, multisig-run,
}
use transformer_vm_bank.Contracts.Conditional.{
  build_time_locked, run_time_locked, build_multisig, run_multisig,
}
use transformer_vm_bank.Contracts.Disputes.{settled, transfer_dispute-verdict}
use transformer_vm_bank.Contracts.Guarded.Correct.{ledger_transfer}
use transformer_vm_bank.Contracts.RiskGated
use transformer_vm_bank.Contracts.RiskGated.{RiskGatedTransfer}
use transformer_vm_bank.Contracts.RiskGated.Correct.{risk_gated-run}
use transformer_vm_bank.Contracts.RiskGated.Correct as RiskCorrect
use transformer_vm_bank.Contracts.RiskGated.Model.{approves}
use transformer_vm_bank.Contracts.Standard.{StandardContract}
use transformer_vm_bank.Contracts.Swap
use transformer_vm_bank.Contracts.Swap.Correct.{ledger_swap, swap-run}
use transformer_vm_bank.Contracts.Transfer
use transformer_vm_bank.Crypto.Toy.{toy, toy-Laws}
use transformer_vm_bank.Protocol.Propose
use transformer_vm_bank.Protocol.Propose.{Propose}
use transformer_vm_bank.Protocol.Execute
use transformer_vm_bank.Protocol.Execute.{Execute}
use transformer_vm_bank.Protocol.Dispute
use transformer_vm_bank.Protocol.Dispute.{Dispute, slash_executor, dismiss_dispute, resolve_dispute}

join : (a b : Bytes) → AreBytes a → AreBytes b → AreBytes (a ++ b)
join a b ha hb = All-append (λ x. x < 256) a b ha hb

-- 300 of the 1000 of the sender go to a recipient with 500; the nonce is 9.
abbrev pub transfer_input : Bytes
transfer_input =
    to_le_bytes 16 1000 ++ (to_le_bytes 16 500 ++ (to_le_bytes 16 300 ++ to_le_bytes 8 9))

pub transfer_input-AreBytes : AreBytes transfer_input
transfer_input-AreBytes = join _ _ (to_le_bytes-AreBytes 16 1000) (
    join _ _ (to_le_bytes-AreBytes 16 500)
      (join _ _ (to_le_bytes-AreBytes 16 300) (to_le_bytes-AreBytes 8 9)))

transfer_input-numbers :
    ledger_transfer
      (number_at 0 16 transfer_input)
      (number_at 16 16 transfer_input)
      (number_at 32 16 transfer_input)
      (number_at 48 8 transfer_input)
    ≡ to_le_bytes 16 700 ++ (to_le_bytes 16 800 ++ to_le_bytes 8 10)
unfolding to_le_bytes from_le_bytes ledger_transfer
transfer_input-numbers = refl

-- The contracts that `build` returns.
abbrev pub transfer_contract : StandardContract
transfer_contract = (build_contract-returns toy (as_bytes "transfer")).0

pub transfer_built : Transfer.build toy ≡ ok transfer_contract
unfolding Transfer.build
transfer_built = (build_contract-returns toy (as_bytes "transfer")).1

pub transfer_input-length : length transfer_input ≡ 56
unfolding to_le_bytes
transfer_input-length = refl

transfer-run_example :
    Transfer.run transfer_contract transfer_input
    ≡ ok (
        ledger_transfer
          (number_at 0 16 transfer_input)
          (number_at 16 16 transfer_input)
          (number_at 32 16 transfer_input)
          (number_at 48 8 transfer_input))
transfer-run_example =
    transfer-run toy transfer_contract transfer_input transfer_input-AreBytes transfer_built
      transfer_input-length

-- A payment with two times behind it, and one with three flags.
abbrev locked_input : Bytes
locked_input = transfer_input ++ (to_le_bytes 8 20 ++ to_le_bytes 8 15)

locked_input-AreBytes : AreBytes locked_input
locked_input-AreBytes =
    join _ _ transfer_input-AreBytes
      (join _ _ (to_le_bytes-AreBytes 8 20) (to_le_bytes-AreBytes 8 15))

abbrev locked_contract : StandardContract
locked_contract = (build_contract-returns toy (as_bytes "time_locked_release")).0

locked_built : build_time_locked toy ≡ ok locked_contract
unfolding build_time_locked
locked_built = (build_contract-returns toy (as_bytes "time_locked_release")).1

locked_input-length : length locked_input ≡ 72
unfolding to_le_bytes
locked_input-length = refl

time_locked-run_example :
    run_time_locked locked_contract locked_input
    ≡ ok (
        if leb (number_at 64 8 locked_input) (number_at 56 8 locked_input)
        then ledger_transfer
            (number_at 0 16 locked_input)
            (number_at 16 16 locked_input)
            (number_at 32 16 locked_input)
            (number_at 48 8 locked_input)
        else replicate 40 0)
time_locked-run_example =
    time_locked-run toy locked_contract locked_input locked_input-AreBytes locked_built
      locked_input-length

abbrev flagged_input : Bytes
flagged_input = transfer_input ++ (1 ∷ 0 ∷ 1 ∷ [])

flagged_input-AreBytes : AreBytes flagged_input
flagged_input-AreBytes =
    join _ _ transfer_input-AreBytes (omega arith, (omega arith, (omega arith, tt)))

abbrev multisig_contract : StandardContract
multisig_contract = (build_contract-returns toy (as_bytes "multisig_2of3")).0

multisig_built : build_multisig toy ≡ ok multisig_contract
unfolding build_multisig
multisig_built = (build_contract-returns toy (as_bytes "multisig_2of3")).1

flagged_input-length : length flagged_input ≡ 59
unfolding to_le_bytes
flagged_input-length = refl

multisig-run_example :
    run_multisig multisig_contract flagged_input
    ≡ ok (
        if two_of_three
          (get_or flagged_input 56 0)
          (get_or flagged_input 57 0)
          (get_or flagged_input 58 0)
        then ledger_transfer
            (number_at 0 16 flagged_input)
            (number_at 16 16 flagged_input)
            (number_at 32 16 flagged_input)
            (number_at 48 8 flagged_input)
        else replicate 40 0)
multisig-run_example =
    multisig-run toy multisig_contract flagged_input flagged_input-AreBytes multisig_built
      flagged_input-length

-- 30 of one asset against 40 of another.
abbrev swap_input : Bytes
swap_input =
    to_le_bytes 16 100
    ++ (to_le_bytes 16 7
        ++ (to_le_bytes 16 8
            ++ (to_le_bytes 16 200
                ++ (to_le_bytes 16 30 ++ (to_le_bytes 16 40 ++ to_le_bytes 8 9)))))

swap_input-AreBytes : AreBytes swap_input
swap_input-AreBytes = join _ _ (to_le_bytes-AreBytes 16 100) (
    join _ _ (to_le_bytes-AreBytes 16 7) (
      join _ _ (to_le_bytes-AreBytes 16 8) (
        join _ _ (to_le_bytes-AreBytes 16 200) (
          join _ _ (to_le_bytes-AreBytes 16 30)
            (join _ _ (to_le_bytes-AreBytes 16 40) (to_le_bytes-AreBytes 8 9))))))

abbrev swap_contract : StandardContract
swap_contract = (build_contract-returns toy (as_bytes "swap")).0

swap_built : Swap.build toy ≡ ok swap_contract
unfolding Swap.build
swap_built = (build_contract-returns toy (as_bytes "swap")).1

swap_input-length : length swap_input ≡ 104
unfolding to_le_bytes
swap_input-length = refl

swap-run_example :
    Swap.run swap_contract swap_input
    ≡ ok (
        ledger_swap
          (number_at 0 16 swap_input)
          (number_at 16 16 swap_input)
          (number_at 32 16 swap_input)
          (number_at 48 16 swap_input)
          (number_at 64 16 swap_input)
          (number_at 80 16 swap_input)
          (number_at 96 8 swap_input))
swap-run_example =
    swap-run toy swap_contract swap_input swap_input-AreBytes swap_built swap_input-length

-- An applicant with income 600, collateral 100, debt 200 and 3 flags.
abbrev risky_input : Bytes
risky_input =
    transfer_input
    ++ (to_le_bytes 2 600 ++ (to_le_bytes 2 100 ++ (to_le_bytes 2 200 ++ to_le_bytes 2 3)))

risky_input-AreBytes : AreBytes risky_input
risky_input-AreBytes = join _ _ transfer_input-AreBytes (
    join _ _ (to_le_bytes-AreBytes 2 600) (
      join _ _ (to_le_bytes-AreBytes 2 100)
        (join _ _ (to_le_bytes-AreBytes 2 200) (to_le_bytes-AreBytes 2 3))))

risky_input-length : length risky_input ≡ 64
unfolding to_le_bytes
risky_input-length = refl

risk_gated-run_example :
    RiskGated.run (RiskCorrect.build-returns toy).0 risky_input
    ≡ ok (
        if approves
          (number_at 56 2 risky_input)
          (number_at 58 2 risky_input)
          (number_at 60 2 risky_input)
          (number_at 62 2 risky_input)
        then ledger_transfer
            (number_at 0 16 risky_input)
            (number_at 16 16 risky_input)
            (number_at 32 16 risky_input)
            (number_at 48 8 risky_input)
        else replicate 40 0)
risk_gated-run_example =
    risk_gated-run toy (RiskCorrect.build-returns toy).0 risky_input
      (RiskCorrect.build-returns toy).1 risky_input-AreBytes risky_input-length
