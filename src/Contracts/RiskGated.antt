-- ===== src/Contracts/RiskGated.antt =====
-- agent_contracts/src/inference.rs: the transfer that a small ternary network allows or denies, from
-- four features in the input.
pub mod Model
pub mod Correct
use transformer_vm_bank.Base.{
  ℕ, ◌+◌, not, ◌==◌, ◌&&◌, true, false, Bool, ltb, if◌then◌else◌, length, List, [], ◌∷◌, ◌++◌,
  Result, ok, ◌>>=◌, ◌>>◌, require,
}
use transformer_vm_bank.Bytes.{Bytes, as_bytes, from_le_bytes, to_le_bytes}
use transformer_vm_bank.Bytes.Slice.{slice}
use transformer_vm_bank.Contracts.Errors.{ContractError, input_shape, from_primitive}
use transformer_vm_bank.Contracts.Guarded.{no_op_output, wrapped_transfer}
use transformer_vm_bank.Contracts.Program.{build_program_hashes}
use transformer_vm_bank.Contracts.Standard.{StandardContract}
use transformer_vm_bank.Crypto.{Crypto}
use transformer_vm_bank.Int.{ℤ, pos, negsuc}
use transformer_vm_bank.Ternary.ByteAdd
use transformer_vm_bank.Ternary.ByteSub
use transformer_vm_bank.Ternary.Errors.{Failure}
use transformer_vm_bank.Ternary.Network.{SparseTernaryLayer, TernaryNetwork, forward}
use transformer_vm_bank.Ternary.Weights.{build_network}

abbrev pub input_len : ℕ
input_len = 64

unfoldable pub layer1 : SparseTernaryLayer
layer1 = record {
  input_dim = 4;
  output_dim = 2;
  pos_indices = (0 ∷ 2 ∷ []) ∷ [] ∷ [];
  neg_indices = (1 ∷ []) ∷ (3 ∷ []) ∷ [];
  bias = pos 0 ∷ pos 10 ∷ [];
  relu = false;
}

unfoldable pub layer2 : SparseTernaryLayer
layer2 = record {
  input_dim = 2;
  output_dim = 4;
  pos_indices = (0 ∷ []) ∷ (0 ∷ []) ∷ (1 ∷ []) ∷ (1 ∷ []) ∷ [];
  neg_indices = [] ∷ [] ∷ [] ∷ [] ∷ [];
  bias = negsuc 498 ∷ negsuc 499 ∷ pos 1 ∷ pos 0 ∷ [];
  relu = true;
}

unfoldable pub layer3 : SparseTernaryLayer
layer3 = record {
  input_dim = 4;
  output_dim = 2;
  pos_indices = (0 ∷ []) ∷ (2 ∷ []) ∷ [];
  neg_indices = (1 ∷ []) ∷ (3 ∷ []) ∷ [];
  bias = pos 0 ∷ pos 0 ∷ [];
  relu = false;
}

unfoldable pub layer4 : SparseTernaryLayer
layer4 = record {
  input_dim = 2;
  output_dim = 1;
  pos_indices = (0 ∷ 1 ∷ []) ∷ [];
  neg_indices = [] ∷ [];
  bias = negsuc 0 ∷ [];
  relu = true;
}

unfoldable pub model_layers : List SparseTernaryLayer
model_layers = layer1 ∷ layer2 ∷ layer3 ∷ layer4 ∷ []

unfoldable pub build_credit_model : Crypto → Result Failure TernaryNetwork
build_credit_model c = build_network c (as_bytes "credit_risk_model_v1") 4 1 model_layers

pub record RiskGatedTransfer : Type 0 where
  pub risk_model : TernaryNetwork
  pub byte_add : TernaryNetwork
  pub byte_sub : TernaryNetwork
  pub program_hash : Bytes
  pub program_hash_v2 : Bytes

unfoldable pub build : Crypto → Result Failure RiskGatedTransfer
build c = do
  risk_model ← build_credit_model c
  byte_add ← ByteAdd.build c
  byte_sub ← ByteSub.build c
  let hashes =
      build_program_hashes c (as_bytes "risk_gated_transfer")
        (risk_model ∷ byte_add ∷ byte_sub ∷ [])
  ok record {
    risk_model = risk_model;
    byte_add = byte_add;
    byte_sub = byte_sub;
    program_hash = hashes.1;
    program_hash_v2 = hashes.0;
  }

-- `out.first().copied().unwrap_or(0) == 1`
unfoldable pub first_is_one : List ℤ → Bool
first_is_one [] = false
first_is_one (pos n ∷ out) = n == 1
first_is_one (negsuc n ∷ out) = false

unfoldable pub model_decision : RiskGatedTransfer → (f0 f1 f2 f3 : ℕ) → Result ContractError Bool
model_decision contract f0 f1 f2 f3 = do
  out ← from_primitive (forward contract.risk_model (pos f0 ∷ pos f1 ∷ pos f2 ∷ pos f3 ∷ []))
  ok (first_is_one out)

unfoldable pub pack_input : (from to amount nonce f0 f1 f2 f3 : ℕ) → Bytes
pack_input from to amount nonce f0 f1 f2 f3 =
    to_le_bytes 16 from
    ++ (to_le_bytes 16 to
        ++ (to_le_bytes 16 amount
            ++ (to_le_bytes 8 nonce
                ++ (to_le_bytes 2 f0
                    ++ (to_le_bytes 2 f1 ++ (to_le_bytes 2 f2 ++ to_le_bytes 2 f3))))))

unfoldable pub run : RiskGatedTransfer → Bytes → Result ContractError Bytes
run contract input = do
  require (length input == input_len) (input_shape (length input) input_len)
  let income = from_le_bytes (slice 56 2 input)
  let debt = from_le_bytes (slice 58 2 input)
  let collateral = from_le_bytes (slice 60 2 input)
  let risk_flags = from_le_bytes (slice 62 2 input)
  decision ←
      from_primitive
        (forward contract.risk_model (pos income ∷ pos debt ∷ pos collateral ∷ pos risk_flags ∷ []))
  if not (first_is_one decision)
      then ok (no_op_output 40)
      else wrapped_transfer contract.byte_add contract.byte_sub (slice 0 16 input)
          (slice 16 16 input) (slice 32 16 input) (slice 48 8 input)
