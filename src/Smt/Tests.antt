-- ===== src/Smt/Tests.antt =====
-- Proofs from the empty tree and from a tree with one leaf, and the example of the binding theorem.
use transformer_vm_bank.Base.{◌≡◌, refl, ◌⊎◌, true, [], ◌∷◌, arith, replicate}
use transformer_vm_bank.Bytes.{Bytes, bytes_eq}
use transformer_vm_bank.Dict.{lookup, insert}
use transformer_vm_bank.Crypto.{Collision, hash_bytes, hash_concat, hash_three}
use transformer_vm_bank.Crypto.Toy.{toy, toy-Laws}
use transformer_vm_bank.Smt.{
  SparseMerkleTree, MerkleProof, new, put, proof, verify_proof, default_hashes, defaults_from,
  leaf_hash, fold_proof, climb, walk, compute_path_to_leaf, bit,
}
use transformer_vm_bank.Smt.Binding.{IsWire, verify_proof_binding}

abbrev key : Bytes
key = replicate 32 0x5a

abbrev tree : SparseMerkleTree
tree = put toy key (1 ∷ 2 ∷ []) (new toy)

abbrev key_proof : MerkleProof
key_proof = proof tree key

key_proof-verifies : verify_proof toy tree.root key key_proof ≡ true
unfolding verify_proof proof put new default_hashes defaults_from leaf_hash fold_proof climb walk
    compute_path_to_leaf bit hash_bytes hash_concat hash_three lookup insert bytes_eq
key_proof-verifies = refl

key_proof-IsWire : IsWire key_proof
unfolding proof put new default_hashes defaults_from leaf_hash climb walk compute_path_to_leaf bit
    hash_bytes hash_concat hash_three lookup insert bytes_eq
key_proof-IsWire = record { sibling_lens = ground arith }

verify_proof_binding_example : (key_proof.value ≡ key_proof.value) ⊎ Collision toy
verify_proof_binding_example =
    verify_proof_binding toy-Laws tree.root key key_proof key_proof key_proof-IsWire
      key_proof-IsWire key_proof-verifies key_proof-verifies
