-- ===== src/Sequencer/Mempool.antt =====
-- sequencer/src/mempool.rs: the checks a transaction passes before it is queued, and the queue.
pub mod Admission
pub mod Queue
use Prim.Native.Nat.{min}
use transformer_vm_bank.Base.{
  ℕ, ◌+◌, ◌%◌, ◌^◌, Bool, true, false, not, ◌&&◌, ◌||◌, Option, List, [], ◌∷◌, ◌++◌, Result, ok,
  err, ◌>>=◌, ◌>>◌, require, refuse_if, ok_or, is_some, length, take, drop, ltb, leb, ◌==◌,
  if◌then◌else◌,
}
use transformer_vm_bank.Bytes.{Bytes, bytes_eq, from_le_bytes}
use transformer_vm_bank.Crypto.{Crypto, SigError, verify}
use transformer_vm_bank.Account.{Account, nonce, is_frozen}
use transformer_vm_bank.Sequencer.Tx.{TxKind, SignedTx, canonical}
use transformer_vm_bank.Sequencer.Registry.{IssuerRecord}
use transformer_vm_bank.Sequencer.State.{State, account}

-- The errors, which the source gives as texts.
pub data TxError : Type 0 where
  mempool_full : TxError
  invalid_signature : SigError → TxError
  nonce_mismatch : (expected got : ℕ) → TxError
  sender_frozen : TxError
  multi_asset_nonce_mismatch : TxError
  unknown_asset_id : TxError
  mint_not_authorized : TxError
  burn_not_authorized : TxError
  freeze_not_authorized : TxError
  freeze_requires_court_order_hash : TxError
  travel_rule_metadata_required : TxError

unfoldable pub signature_result : Result SigError (Unit {0}) → Result TxError (Unit {0})
signature_result (ok _) = ok tt
signature_result (err e) = err (TxError.invalid_signature e)

-- `signer_account.nonce() + 1` on a u64
unfoldable pub next_nonce : Account → ℕ
next_nonce a = (nonce a + 1) % 2 ^ 64

-- 2. Nonce + sender state
unfoldable pub check_sender : TxKind → ℕ → Account → Result TxError (Unit {0})
check_sender TxKind.transfer n a = do
  require (n == next_nonce a) (TxError.nonce_mismatch (next_nonce a) n)
  refuse_if (is_frozen a) TxError.sender_frozen
check_sender TxKind.burn n a = do
  require (n == next_nonce a) (TxError.nonce_mismatch (next_nonce a) n)
  refuse_if (is_frozen a) TxError.sender_frozen
check_sender TxKind.multi_asset n a = require (n == next_nonce a) TxError.multi_asset_nonce_mismatch
check_sender TxKind.mint n a = ok tt
check_sender TxKind.freeze n a = ok tt

-- 3. Authority for mint/burn/freeze
unfoldable pub check_authority : TxKind → SignedTx → IssuerRecord → Result TxError (Unit {0})
check_authority TxKind.mint tx issuer =
    refuse_if (not (bytes_eq tx.signer issuer.authority_pubkey) || not issuer.mint_enabled)
      TxError.mint_not_authorized
check_authority TxKind.burn tx issuer =
    refuse_if (not (bytes_eq tx.signer issuer.authority_pubkey) || not issuer.burn_enabled)
      TxError.burn_not_authorized
check_authority TxKind.freeze tx issuer = do
  refuse_if (not (bytes_eq tx.signer issuer.authority_pubkey) || not issuer.freeze_enabled)
      TxError.freeze_not_authorized
  require (is_some tx.court_order_hash) TxError.freeze_requires_court_order_hash
check_authority TxKind.transfer tx issuer = ok tt
check_authority TxKind.multi_asset tx issuer = ok tt

-- `matches!(tx.kind, TxKind::Transfer | TxKind::MultiAsset)`
unfoldable pub is_payment : TxKind → Bool
is_payment TxKind.transfer = true
is_payment TxKind.multi_asset = true
is_payment _ = false

-- 4. Travel rule
unfoldable pub check_travel_rule : SignedTx → IssuerRecord → Result TxError (Unit {0})
check_travel_rule tx issuer =
    let amount = from_le_bytes tx.amount in
    let threshold = from_le_bytes issuer.travel_rule_threshold in
    refuse_if
      (is_payment tx.kind
        && ((threshold == 0 || ltb threshold amount) && not (is_some tx.originator_metadata)))
      TxError.travel_rule_metadata_required

unfoldable pub validate :
    Crypto → SignedTx → State → (ℕ → Option IssuerRecord) → Result TxError (Unit {0})
validate c tx s registry = do
  _ ← signature_result (verify c tx.signer (canonical tx) tx.signature)
  _ ← check_sender tx.kind tx.nonce (account s tx.signer)
  issuer ← ok_or (registry tx.asset_id) TxError.unknown_asset_id
  _ ← check_authority tx.kind tx issuer
  check_travel_rule tx issuer

pub record Mempool : Type 0 where
  pub queue : List SignedTx
  pub capacity : ℕ

unfoldable pub new : ℕ → Mempool
new capacity = record { queue = []; capacity = capacity }

unfoldable pub ingress :
    Crypto
    → SignedTx
    → State
    → (ℕ → Option IssuerRecord)
    → Mempool
    → Mempool × Result TxError (Unit {0})
ingress c tx s registry m =
    if leb m.capacity (length m.queue)
    then (m, err TxError.mempool_full)
    else elim (validate c tx s registry) [
      | err e ↦ (m, err e)
      | ok _ ↦ (record m { queue = m.queue ++ tx ∷ [] }, ok tt)
    ]

unfoldable pub drain : ℕ → Mempool → Mempool × List SignedTx
drain n m =
    let taken = min n (length m.queue) in
    (record m { queue = drop taken m.queue }, take taken m.queue)
