-- ===== src/Contracts/Program.antt =====
-- agent_contracts/src/program.rs: the hashes that identify a contract, and the trait that every
-- contract implements.
use transformer_vm_bank.Base.{◌%◌, ◌^◌, List, [], ◌∷◌, ◌++◌, length, Result}
use transformer_vm_bank.Bytes.{Bytes, to_be_bytes}
use transformer_vm_bank.Contracts.Errors.{ContractError}
use transformer_vm_bank.Crypto.{Crypto}
use transformer_vm_bank.Ternary.Network.{TernaryNetwork}

-- What the hasher is updated with after the name.
unfoldable pub child_hashes_v1 : List TernaryNetwork → Bytes
child_hashes_v1 [] = []
child_hashes_v1 (n ∷ networks) = n.header.weights_hash ++ child_hashes_v1 networks

unfoldable pub child_hashes_v2 : List TernaryNetwork → Bytes
child_hashes_v2 [] = []
child_hashes_v2 (n ∷ networks) = n.header.weights_hash_v2 ++ child_hashes_v2 networks

unfoldable pub program_hash_v1 : Crypto → Bytes → List TernaryNetwork → Bytes
program_hash_v1 c name networks = c.blake3 (name ++ child_hashes_v1 networks)

unfoldable pub program_hash_v2 : Crypto → Bytes → List TernaryNetwork → Bytes
program_hash_v2 c name networks = c.blake3_512 (name ++ child_hashes_v2 networks)

unfoldable pub build_program_hashes : Crypto → Bytes → List TernaryNetwork → Bytes × Bytes
build_program_hashes c name networks =
    (program_hash_v2 c name networks, program_hash_v1 c name networks)

-- The trait `TernaryProgram`; its `trace_hash` has a default body, below.
pub record TernaryProgram : Type 0 where
  pub name : Bytes
  pub run : Bytes → Result ContractError Bytes
  pub program_hash_v2 : Bytes
  pub program_hash : Bytes

unfoldable pub trace_hash : Crypto → TernaryProgram → (input output : Bytes) → Bytes
trace_hash c program input output = c.blake3 (
    program.program_hash
    ++ (to_be_bytes 4 (length input % 2 ^ 32)
        ++ (input ++ (to_be_bytes 4 (length output % 2 ^ 32) ++ output))))
