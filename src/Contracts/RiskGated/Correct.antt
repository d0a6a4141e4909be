-- ===== src/Contracts/RiskGated/Correct.antt =====
-- The transfer of inference.rs, as its `build` makes it, settles by the documented predicate.
use transformer_vm_bank.Base.{
  ℕ, ◌+◌, ◌<◌, ◌≤◌, ◌≡◌, refl, sym, ap, ◌∙◌, inl, inr, arith, if◌then◌else◌, length, replicate, ok,
  Returns, ok-injective, Bool-cases, All,
}
use transformer_vm_bank.Bytes.{Bytes, AreBytes, as_bytes}
use transformer_vm_bank.Bytes.Encode.{from_le_bytes-lt}
use transformer_vm_bank.Bytes.Slice.{slice, slice-AreBytes, length-slice}
use transformer_vm_bank.Contracts.Agreement.{number_at, transfer_at}
use transformer_vm_bank.Contracts.Guarded.{no_op_output}
use transformer_vm_bank.Contracts.Guarded.Correct.{AreBuilt, ledger_transfer, from_primitive-ok}
use transformer_vm_bank.Contracts.RiskGated.{
  RiskGatedTransfer, build, build_credit_model, model_layers, layer1, layer2, layer3, layer4,
  first_is_one, run,
}
use transformer_vm_bank.Contracts.RiskGated.Model.{approves, forward-decides}
use transformer_vm_bank.Crypto.{Crypto}
use transformer_vm_bank.Ternary.ByteAdd.Correct as Adder
use transformer_vm_bank.Ternary.ByteSub.Correct as Subtracter
use transformer_vm_bank.Ternary.Network.{TernaryNetwork}
use transformer_vm_bank.Ternary.Weights.Total.{HasOffsets, build_network-returns}

-- The three networks have the layers that their `build` functions make.
pub record IsBuilt (contract : RiskGatedTransfer) : Type 0 where
  pub model : contract.risk_model.layers ≡ model_layers
  pub arithmetic : AreBuilt contract.byte_add contract.byte_sub

build_credit_model-returns :
    (c : Crypto)
    → (net : TernaryNetwork) × (build_credit_model c ≡ ok net) × (net.layers ≡ model_layers)
unfolding build_credit_model model_layers layer1 layer2 layer3 layer4
build_credit_model-returns c =
    let small : All HasOffsets model_layers = (
      (omega arith, omega arith),
      ((omega arith, omega arith), ((omega arith, omega arith), ((omega arith, omega arith), tt))),
    ) in
    build_network-returns c (as_bytes "credit_risk_model_v1") 4 1 model_layers small

pub build-returns : (c : Crypto) → Returns (build c)
unfolding build
build-returns c =
    let model = build_credit_model-returns c in
    let add = Adder.build-returns c in
    let sub = Subtracter.build-returns c in rw (model.1, add.1, sub.1) (_, refl)

pub build-IsBuilt :
    (c : Crypto) {contract : RiskGatedTransfer} → build c ≡ ok contract → IsBuilt contract
unfolding build
build-IsBuilt c e =
    let model = build_credit_model-returns c in
    let add = Adder.build-returns c in
    let sub = Subtracter.build-returns c in
    let same = ok-injective (rw (model.1, add.1, sub.1) at e) in
    record {
      model = sym (ap (λ k. k.risk_model.layers) same) ∙ model.2;
      arithmetic = record {
        adder = sym (ap (λ k. k.byte_add.layers) same) ∙ add.2;
        subtracter = sym (ap (λ k. k.byte_sub.layers) same) ∙ sub.2;
      };
    }

u16_at :
    (off : ℕ) (input : Bytes)
    → AreBytes input
    → off + 2 ≤ length input
    → number_at off 2 input < 65536
u16_at off input bytes h =
    rw (length-slice off 2 input h) at
      (from_le_bytes-lt (slice off 2 input) (slice-AreBytes off 2 input bytes))

-- On 64 bytes, the contract that `RiskGatedTransfer::build` returns settles the transfer of the
-- first 56 when the four features that follow satisfy the predicate that the module documents,
-- income + collateral - debt at least 500 and at most 10 risk flags, and answers with zeros when
-- they do not. No network overflows or fails to decode.
pub risk_gated-run :
    (c : Crypto) (contract : RiskGatedTransfer) (input : Bytes)
    → build c ≡ ok contract
    → AreBytes input
    → length input ≡ 64
    → run contract input
      ≡ ok (
          if approves
            (number_at 56 2 input)
            (number_at 58 2 input)
            (number_at 60 2 input)
            (number_at 62 2 input)
          then ledger_transfer
              (number_at 0 16 input)
              (number_at 16 16 input)
              (number_at 32 16 input)
              (number_at 48 8 input)
          else replicate 40 0)
unfolding run no_op_output first_is_one
risk_gated-run c contract input built bytes len =
    let nets = build-IsBuilt c built in
    let f0 = number_at 56 2 input in
    let f1 = number_at 58 2 input in
    let f2 = number_at 60 2 input in
    let f3 = number_at 62 2 input in
    let decision = from_primitive-ok (
      forward-decides f0 f1 f2 f3 (u16_at 56 input bytes (omega arith))
        (u16_at 58 input bytes (omega arith)) (u16_at 60 input bytes (omega arith))
        (u16_at 62 input bytes (omega arith)) contract.risk_model nets.model) in
    let settled =
      transfer_at contract.byte_add contract.byte_sub input nets.arithmetic bytes 48 (omega arith)
        (omega arith) in
    elim (Bool-cases (approves f0 f1 f2 f3)) [
      | inl approved ↦ rw (len, decision, approved, settled) refl
      | inr denied ↦ rw (len, decision, denied) refl
    ]
