-- ===== src/Sequencer/Node/Issuers.antt =====
-- Registered issuers are found again.
use transformer_vm_bank.Base.{
  ℕ, ◌≡◌, refl, ◌^◌, ◌<◌, ◌⊎◌, inl, inr, Bool-cases, some, arith, ◌==◌, if◌then◌else◌,
  append-injective,
}
use transformer_vm_bank.Bytes.{bytes_eq, bytes_eq_iff, as_bytes}
use transformer_vm_bank.Bytes.Encode.{to_le_bytes-injective}
use transformer_vm_bank.Crypto.{Crypto, Collision, blake3-injective, hash_bytes}
use transformer_vm_bank.Sequencer.Registry.{IssuerRecord, Json, RoundTrips, issuer_key}
use transformer_vm_bank.Sequencer.State.Accounts.{get-put, stored-nonempty}
use transformer_vm_bank.Sequencer.Node.{SequencerNode, register_issuer, lookup_issuer}

issuer_key-injective :
    (c : Crypto) (m n : ℕ)
    → m < 2 ^ 32
    → n < 2 ^ 32
    → issuer_key c m ≡ issuer_key c n
    → (m ≡ n) ⊎ Collision c
unfolding issuer_key hash_bytes
issuer_key-injective c m n hm hn e = elim (blake3-injective c _ _ e) [
  | inl same ↦ inl (
      to_le_bytes-injective 4 m n (omega arith) (omega arith)
        (append-injective (as_bytes "issuer:") (as_bytes "issuer:") refl same).1)
  | inr clash ↦ inr clash
]

-- A registered issuer is the answer for its asset from then on, and the answers for all other assets
-- stay; the one exception is a BLAKE3 collision.
pub lookup_issuer-register_issuer :
    {c : Crypto} {j : Json} (issuer : IssuerRecord)
    → RoundTrips j issuer
    → (node : SequencerNode) (asset_id : ℕ) → issuer.asset_id < 2 ^ 32
    → asset_id < 2 ^ 32
    → (lookup_issuer c j asset_id (register_issuer c j issuer node)
        ≡ (if issuer.asset_id == asset_id then some issuer else lookup_issuer c j asset_id node))
      ⊎ Collision c
unfolding lookup_issuer register_issuer
lookup_issuer-register_issuer {c} {j} issuer l node asset_id hi ha =
    let key = issuer_key c issuer.asset_id in
    let put_then_get =
      get-put c key (issuer_key c asset_id) (j.to_vec issuer) node.state.registry in
    elim (Bool-cases (bytes_eq key (issuer_key c asset_id))) [
      | inr other ↦ inl (ground (arith, put_then_get, bytes_eq_iff key (issuer_key c asset_id)))
      | inl same ↦
          elim (issuer_key-injective c issuer.asset_id asset_id hi ha ((bytes_eq_iff _ _).0 same)) [
            | inr clash ↦ inr clash
            | inl e ↦
                let kept = stored-nonempty (j.to_vec issuer) l.to_vec_nonempty in
                inl (ground (arith, put_then_get, kept, l.from_slice-to_vec))
          ]
    ]
