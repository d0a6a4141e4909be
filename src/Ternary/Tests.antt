-- ===== src/Ternary/Tests.antt =====
-- Runs of the ternary networks on small inputs, and the examples of their theorems.
use transformer_vm_bank.Base.{
  ℕ, zero, suc, ◌≡◌, refl, ◌⊎◌, List, [], ◌∷◌, ok, false, true, arith, replicate, ◌>>=◌,
}
use transformer_vm_bank.Bytes.{as_bytes}
use transformer_vm_bank.Crypto.{Collision}
use transformer_vm_bank.Crypto.Toy.{toy, toy-Laws}
use transformer_vm_bank.Int.{ℤ, pos, negsuc, in_i64, checked_add, checked_sub, ◌+ℤ◌, ◌-ℤ◌}
use transformer_vm_bank.Ternary.Network.{
  SparseTernaryLayer, WeightsHeader, TernaryNetwork, add_columns, sub_columns, activate,
  forward_row, forward_rows, forward_layer, forward_layers, check_input, forward, argmax,
}
use transformer_vm_bank.Ternary.Network.Kernel.{apply, apply_all, forward-exact}
use transformer_vm_bank.Ternary.Network.Bounds.{IsShaped, HasRoom, forward_layer-total}
use transformer_vm_bank.Ternary.Network.Argmax.{IsFirstMax, argmax-IsFirstMax}
use transformer_vm_bank.Ternary.ByteAdd
use transformer_vm_bank.Ternary.ByteAdd.Correct.{byte_add-run}
use transformer_vm_bank.Ternary.ByteSub
use transformer_vm_bank.Ternary.ByteSub.Correct.{byte_sub-run}
use transformer_vm_bank.Ternary.FreezeApply
use transformer_vm_bank.Ternary.FreezeApply.Correct.{freeze_apply-run}
use transformer_vm_bank.Ternary.TraceHash.{IsEncodable, trace_hash_v2-binding}
use transformer_vm_bank.Ternary.Weights.{build_header, pack_weights}
use transformer_vm_bank.Ternary.Weights.Layers.{IsPackable}
use transformer_vm_bank.Ternary.Weights.RoundTrip.{unpack-pack}
use transformer_vm_bank.Ternary.Weights.Unpack.{is_utf8, unpack_weights, lead_byte, utf8_from}

-- A layer that copies three entries.
abbrev identity : SparseTernaryLayer
identity = record {
  input_dim = 3;
  output_dim = 3;
  pos_indices = (0 ∷ []) ∷ (1 ∷ []) ∷ (2 ∷ []) ∷ [];
  neg_indices = [] ∷ [] ∷ [] ∷ [];
  bias = pos 0 ∷ pos 0 ∷ pos 0 ∷ [];
  relu = false;
}

-- A layer with two rows, of which the first subtracts an entry.
abbrev mixed : SparseTernaryLayer
mixed = record {
  input_dim = 3;
  output_dim = 2;
  pos_indices = (0 ∷ 2 ∷ []) ∷ (1 ∷ []) ∷ [];
  neg_indices = (1 ∷ []) ∷ [] ∷ [];
  bias = pos 5 ∷ negsuc 2 ∷ [];
  relu = true;
}

abbrev header : WeightsHeader
header = record {
  version = 1;
  primitive = as_bytes "test";
  input_dim = 3;
  output_dim = 2;
  weights_hash = replicate 32 0;
  weights_hash_v2 = replicate 64 0;
}

abbrev net : TernaryNetwork
net = record { header = header; layers = identity ∷ mixed ∷ [] }

abbrev entries : List ℤ
entries = pos 7 ∷ negsuc 2 ∷ pos 42 ∷ []

forward-entries : forward net entries ≡ ok (pos 57 ∷ pos 0 ∷ [])
unfolding forward check_input forward_layers forward_layer forward_rows forward_row add_columns
    sub_columns activate checked_add in_i64 ◌+ℤ◌ checked_sub ◌-ℤ◌
forward-entries = refl

forward-exact_example : (pos 57 ∷ pos 0 ∷ []) ≡ apply_all (identity ∷ mixed ∷ []) entries
forward-exact_example = forward-exact net entries forward-entries

mixed-IsShaped : IsShaped mixed
mixed-IsShaped = record {
  rows_pos = refl;
  rows_neg = refl;
  rows_bias = refl;
  columns_pos = ((omega arith, (omega arith, tt)), ((omega arith, tt), tt));
  columns_neg = ((omega arith, tt), (tt, tt));
}

mixed-HasRoom : HasRoom mixed 42
unfolding HasRoom
mixed-HasRoom zero h = omega arith
mixed-HasRoom (suc zero) h = omega arith
mixed-HasRoom (suc (suc i)) h = absurd (omega arith)

forward_layer-total_example :
    forward_layer mixed entries (pos 0 ∷ pos 0 ∷ []) 1 ≡ ok (apply mixed entries)
forward_layer-total_example =
    forward_layer-total mixed entries 42 mixed-IsShaped refl
      (omega arith, (omega arith, (omega arith, tt))) mixed-HasRoom (pos 0 ∷ pos 0 ∷ []) 1 refl

argmax-IsFirstMax_example :
    (i : ℕ) × (argmax (negsuc 2 ∷ pos 5 ∷ pos 5 ∷ []) ≡ ok i)
    × IsFirstMax (negsuc 2 ∷ pos 5 ∷ pos 5 ∷ []) i
argmax-IsFirstMax_example = argmax-IsFirstMax (negsuc 2) (pos 5 ∷ pos 5 ∷ [])

-- The carry boundary of the byte adder, the borrow boundary of the byte subtracter, and the top bit.
byte_add-run_example : (ByteAdd.build toy >>= λ n. ByteAdd.run n 255 255 1) ≡ ok (255, 1)
byte_add-run_example = byte_add-run toy 255 255 1 (omega arith) (omega arith) (omega arith)

byte_sub-run_example : (ByteSub.build toy >>= λ n. ByteSub.run n 0 255 1) ≡ ok (0, 1)
byte_sub-run_example = byte_sub-run toy 0 255 1 (omega arith) (omega arith) (omega arith)

freeze_apply-run_example : (FreezeApply.build toy >>= λ n. FreezeApply.run n 1 200) ≡ ok 200
freeze_apply-run_example = freeze_apply-run toy 1 200 (omega arith) (omega arith)

entries-IsEncodable : IsEncodable entries
unfolding in_i64
entries-IsEncodable = record { count = omega arith; entries = (refl, (refl, (refl, tt))) }

trace_hash_v2-binding_example :
    ((net.header.weights_hash_v2 ≡ net.header.weights_hash_v2)
      × (entries ≡ entries)
      × (entries ≡ entries))
    ⊎ Collision toy
trace_hash_v2-binding_example =
    trace_hash_v2-binding toy net net entries entries entries entries refl entries-IsEncodable
      entries-IsEncodable entries-IsEncodable entries-IsEncodable refl

mixed-IsPackable : IsPackable mixed
unfolding in_i64
mixed-IsPackable = record {
  shaped = mixed-IsShaped;
  small_input = omega arith;
  small_output = omega arith;
  small_offsets = (omega arith, omega arith);
  small_bias = (refl, (refl, tt));
}

name_text : is_utf8 (as_bytes "test") ≡ true
unfolding lead_byte utf8_from
name_text = refl

unpack-pack_example :
    (read : WeightsHeader) × (build_header toy (as_bytes "test") 3 2 (mixed ∷ []) ≡ ok read)
    × ((pack_weights toy (as_bytes "test") 3 2 (mixed ∷ []) >>= λ packed.
          unpack_weights toy packed.0)
        ≡ ok (read, mixed ∷ []))
unpack-pack_example =
    unpack-pack toy toy-Laws (as_bytes "test") 3 2 (mixed ∷ []) name_text (omega arith)
      (omega arith) (omega arith) (omega arith) (mixed-IsPackable, tt)
