-- ===== src/Sequencer/Registry.antt =====
-- sequencer/src/issuer_registry.rs. The JSON encoding of serde_json is third-party code, a record
-- that the definitions take.
use transformer_vm_bank.Base.{ℕ, Bool, Option, some, List, [], ◌≡◌, ◌≢◌, ◌++◌}
use transformer_vm_bank.Bytes.{Bytes, as_bytes, to_le_bytes}
use transformer_vm_bank.Crypto.{Crypto, hash_bytes}

pub record IssuerRecord : Type 0 where
  pub asset_id : ℕ
  pub authority_pubkey : Bytes
  pub max_supply : Bytes
  pub mint_enabled : Bool
  pub burn_enabled : Bool
  pub freeze_enabled : Bool
  pub travel_rule_threshold : Bytes
  pub regulator_view_keys : List Bytes
  pub name : Bytes

pub record Json : Type 0 where
  -- `serde_json::to_vec(self)`
  pub to_vec : IssuerRecord → Bytes
  -- `serde_json::from_slice(bytes).ok()`
  pub from_slice : Bytes → Option IssuerRecord

-- What the code relies on for a record: it is read back, and its text is not empty.
pub record RoundTrips (j : Json) (r : IssuerRecord) : Type 0 where
  pub from_slice-to_vec : j.from_slice (j.to_vec r) ≡ some r
  pub to_vec_nonempty : j.to_vec r ≢ []

-- `IssuerRecord::key`, and the key that `lookup_issuer` computes.
unfoldable pub issuer_key : Crypto → ℕ → Bytes
issuer_key c asset_id = hash_bytes c (as_bytes "issuer:" ++ to_le_bytes 4 asset_id)
