-- ===== src/LightClient/Tests.antt =====
-- Two headers and a balance, and the examples of the theorems on the light client.
use transformer_vm_bank.Base.{ℕ, ◌≡◌, refl, ◌⊎◌, true, List, [], ◌∷◌, ok, arith, replicate}
use transformer_vm_bank.Bytes.{Bytes, bytes_eq, to_le_bytes, from_le_bytes}
use transformer_vm_bank.Bytes.Slice.{overwrite, modify}
use transformer_vm_bank.Dict.{lookup, insert}
use transformer_vm_bank.Crypto
use transformer_vm_bank.Crypto.{Collision, hash_bytes, hash_concat, hash_three}
use transformer_vm_bank.Crypto.Toy.{toy, toy-Laws}
use transformer_vm_bank.Account.{new, set_balance, balance, is_frozen, clear_flag}
use transformer_vm_bank.Smt
use transformer_vm_bank.Smt.{
  SparseMerkleTree, MerkleProof, put, proof, verify_proof, default_hashes, defaults_from, leaf_hash,
  fold_proof, climb, walk, compute_path_to_leaf, bit,
}
use transformer_vm_bank.Smt.Binding
use transformer_vm_bank.LightClient.Header.{
  SignedHeader, signing_bytes, sign_header, verify_header, full_hash,
}
use transformer_vm_bank.LightClient.Verify.{
  check_link, check_headers, last_header, value_balance, verify_balance,
}
use transformer_vm_bank.LightClient.Soundness.{
  IsChain, verify_balance-IsChain, verify_balance_unique,
}

abbrev sequencer : Bytes
sequencer = replicate 32 8

abbrev account : Bytes
account = replicate 32 9

abbrev tree : SparseMerkleTree
tree = put toy account (set_balance 500 (new account)).bytes (Smt.new toy)

abbrev genesis : Bytes
genesis = (Smt.new toy).root

abbrev first : SignedHeader
first =
    sign_header toy
      (record {
        block_n = 0;
        parent_hash = replicate 32 0;
        prev_state_root = genesis;
        tx_list_hash = replicate 32 0;
        trace_hash = replicate 32 0;
        new_state_root = genesis;
        issuer_registry_root = replicate 32 0;
        timestamp_ms = 1000;
        sequencer_pubkey = sequencer;
      })
      sequencer

abbrev second : SignedHeader
second =
    sign_header toy
      (record {
        block_n = 1;
        parent_hash = full_hash toy first;
        prev_state_root = genesis;
        tx_list_hash = replicate 32 0;
        trace_hash = replicate 32 0;
        new_state_root = tree.root;
        issuer_registry_root = replicate 32 0;
        timestamp_ms = 2000;
        sequencer_pubkey = sequencer;
      })
      sequencer

abbrev headers : List SignedHeader
headers = first ∷ second ∷ []

abbrev account_proof : MerkleProof
account_proof = proof tree account

answers : verify_balance toy genesis headers sequencer account account_proof ≡ ok 500
unfolding verify_balance check_headers check_link value_balance verify_header sign_header full_hash
    signing_bytes Crypto.sign Crypto.verify verify_proof proof put Smt.new default_hashes
    defaults_from leaf_hash fold_proof climb walk compute_path_to_leaf bit hash_bytes hash_concat
    hash_three lookup insert bytes_eq new set_balance balance is_frozen clear_flag overwrite modify
    to_le_bytes from_le_bytes
answers = refl

account_proof-IsWire : Binding.IsWire account_proof
unfolding proof put Smt.new default_hashes defaults_from leaf_hash climb walk compute_path_to_leaf
    bit hash_bytes hash_concat hash_three lookup insert bytes_eq new set_balance is_frozen overwrite
    to_le_bytes
account_proof-IsWire = record { sibling_lens = ground arith }

verify_balance-IsChain_example :
    (s : SignedHeader) × (rest : List SignedHeader) × (headers ≡ s ∷ rest)
    × IsChain toy sequencer genesis headers
    × (verify_proof toy (last_header s rest).header.new_state_root account account_proof ≡ true)
    × (500 ≡ value_balance account_proof.value)
verify_balance-IsChain_example =
    verify_balance-IsChain toy sequencer genesis headers account account_proof 500 answers

verify_balance_unique_example : (◌≡◌ {A = ℕ} 500 500) ⊎ Collision toy
verify_balance_unique_example =
    verify_balance_unique toy sequencer toy-Laws genesis headers account account_proof account_proof
      500 500 account_proof-IsWire account_proof-IsWire answers answers
