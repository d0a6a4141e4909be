-- ===== src/Contracts/Errors.antt =====
-- agent_contracts/src/error.rs; the names and texts inside the errors are left out.
use transformer_vm_bank.Base.{ℕ, Result, ok, err}
use transformer_vm_bank.Ternary.Errors.{Failure}

-- What stops a primitive is its `TernaryError`, or a panic, which stops the contract as well.
pub data ContractError : Type 0 where
  input_shape : (got expected : ℕ) → ContractError
  primitive : Failure → ContractError
  precondition : ContractError
  overflow : ContractError

-- `?` on the result of a primitive.
abbrev pub from_primitive {ℓ} : {A : Type ℓ} → Result Failure A → Result ContractError A
from_primitive (ok a) = ok a
from_primitive (err e) = err (primitive e)
