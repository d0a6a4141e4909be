-- ===== src/Sequencer/Mempool/Admission.antt =====
-- What `validate` lets pass.
use transformer_vm_bank.Base.{ℕ, ◌≡◌, ◌<◌, ◌≤◌, ◌⊎◌, true, false, Option, some, ok, is_some}
use transformer_vm_bank.Bytes.{from_le_bytes}
use transformer_vm_bank.Crypto.{Crypto, verify}
use transformer_vm_bank.Account.{Account, is_frozen}
use transformer_vm_bank.Sequencer.Tx.{TxKind, SignedTx, canonical}
use transformer_vm_bank.Sequencer.Registry.{IssuerRecord}
use transformer_vm_bank.Sequencer.State.{State, account}
use transformer_vm_bank.Sequencer.Mempool.{next_nonce, is_payment}

-- What the kind asks of the account of the signer.
abbrev pub IsSender : TxKind → ℕ → Account → Type 0
IsSender TxKind.transfer n a = (n ≡ next_nonce a) × (is_frozen a ≡ false)
IsSender TxKind.burn n a = (n ≡ next_nonce a) × (is_frozen a ≡ false)
IsSender TxKind.multi_asset n a = n ≡ next_nonce a
IsSender TxKind.mint n a = Unit
IsSender TxKind.freeze n a = Unit

-- What it asks of the issuer of the asset.
abbrev pub IsAuthorized : TxKind → SignedTx → IssuerRecord → Type 0
IsAuthorized TxKind.mint tx issuer =
    (tx.signer ≡ issuer.authority_pubkey) × (issuer.mint_enabled ≡ true)
IsAuthorized TxKind.burn tx issuer =
    (tx.signer ≡ issuer.authority_pubkey) × (issuer.burn_enabled ≡ true)
IsAuthorized TxKind.freeze tx issuer =
    (tx.signer ≡ issuer.authority_pubkey)
    × (issuer.freeze_enabled ≡ true)
    × (is_some tx.court_order_hash ≡ true)
IsAuthorized TxKind.transfer tx issuer = Unit
IsAuthorized TxKind.multi_asset tx issuer = Unit

-- A payment above the threshold of the asset, or of an asset with the threshold 0, has metadata.
abbrev pub FollowsTravelRule : SignedTx → IssuerRecord → Type 0
FollowsTravelRule tx issuer =
    (is_payment tx.kind ≡ false)
    ⊎ ((is_some tx.originator_metadata ≡ true)
        ⊎ ((0 < from_le_bytes issuer.travel_rule_threshold)
            × (from_le_bytes tx.amount ≤ from_le_bytes issuer.travel_rule_threshold)))

module _ (c : Crypto) (registry : ℕ → Option IssuerRecord) where
  pub record IsAdmissible (tx : SignedTx) (s : State) (issuer : IssuerRecord) : Type 0 where
    pub signed : verify c tx.signer (canonical tx) tx.signature ≡ ok tt
    pub sender : IsSender tx.kind tx.nonce (account s tx.signer)
    pub registered : registry tx.asset_id ≡ some issuer
    pub authorized : IsAuthorized tx.kind tx issuer
    pub travel_rule : FollowsTravelRule tx issuer
