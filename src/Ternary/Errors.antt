-- ===== src/Ternary/Errors.antt =====
-- ternary_vm/src/error.rs: the errors of the ternary kernel. The texts of the messages are not
-- modelled.
use transformer_vm_bank.Base.{ℕ}
use transformer_vm_bank.Int.{ℤ}

pub data TernaryError : Type 0 where
  overflow : (layer row : ℕ) → TernaryError
  input_shape : (got expected : ℕ) → TernaryError
  input_range : (value max : ℤ) → TernaryError
  output_decode : TernaryError
  weights_hash_mismatch : TernaryError
  layer_shape : (layer got expected : ℕ) → TernaryError
  empty_argmax : TernaryError

-- How a run stops without a result: with an error that it returns, with the panic of an index
-- outside a vector, or with that of an `expect`.
pub data Failure : Type 0 where
  returned : TernaryError → Failure
  index_out_of_bounds panicked : Failure
