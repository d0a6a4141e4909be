-- ===== src/Contracts/Standard.antt =====
-- What the seven transfer contracts of agent_contracts share: each is a struct of the two networks
-- and the two hashes, and its `build` makes the networks and hashes them with the contract's name.
use transformer_vm_bank.Base.{[], ◌∷◌, Result, ok, ◌>>=◌}
use transformer_vm_bank.Bytes.{Bytes}
use transformer_vm_bank.Contracts.Program.{build_program_hashes, TernaryProgram}
use transformer_vm_bank.Contracts.Errors.{ContractError}
use transformer_vm_bank.Crypto.{Crypto}
use transformer_vm_bank.Ternary.ByteAdd
use transformer_vm_bank.Ternary.ByteSub
use transformer_vm_bank.Ternary.Errors.{Failure}
use transformer_vm_bank.Ternary.Network.{TernaryNetwork}

-- `TransferContract`, `EscrowCreate` and the other structs have these fields.
pub record StandardContract : Type 0 where
  pub byte_add : TernaryNetwork
  pub byte_sub : TernaryNetwork
  pub program_hash : Bytes
  pub program_hash_v2 : Bytes

unfoldable pub build_subnets : Crypto → Result Failure (TernaryNetwork × TernaryNetwork)
build_subnets c = do byte_add ← ByteAdd.build c; byte_sub ← ByteSub.build c; ok (byte_add, byte_sub)

unfoldable pub hash_program : Crypto → Bytes → (byte_add byte_sub : TernaryNetwork) → Bytes × Bytes
hash_program c name byte_add byte_sub =
    let hashes = build_program_hashes c name (byte_add ∷ byte_sub ∷ []) in (hashes.1, hashes.0)

unfoldable pub build_contract : Crypto → Bytes → Result Failure StandardContract
build_contract c name = do
  nets ← build_subnets c
  ok record {
    byte_add = nets.0;
    byte_sub = nets.1;
    program_hash = (hash_program c name nets.0 nets.1).0;
    program_hash_v2 = (hash_program c name nets.0 nets.1).1;
  }

-- The contract as an implementor of `TernaryProgram`.
unfoldable pub as_program :
    Bytes
    → (StandardContract → Bytes → Result ContractError Bytes)
    → StandardContract
    → TernaryProgram
as_program name run contract = record {
  name = name;
  run = run contract;
  program_hash_v2 = contract.program_hash_v2;
  program_hash = contract.program_hash;
}
