-- ===== src/Sequencer/Tx.antt =====
-- sequencer/src/tx.rs: a transaction, and the bytes that its signature covers.
pub mod Encoding
use transformer_vm_bank.Base.{ℕ, ◌%◌, ◌^◌, ◌++◌, Option, none, some, List, [], ◌∷◌, length}
use transformer_vm_bank.Bytes.{Bytes, to_le_bytes}

pub data TxKind : Type 0 where
  transfer mint burn freeze multi_asset : TxKind

pub record SignedTx : Type 0 where
  pub kind : TxKind
  pub asset_id : ℕ
  pub nonce : ℕ
  pub signer : Bytes
  pub recipient : Option Bytes
  pub amount : Bytes
  pub flag : ℕ
  pub court_order_hash : Option Bytes
  pub multi_payload : Option Bytes
  pub originator_metadata : Option Bytes
  pub signature : Bytes

-- `self.kind as u8`
unfoldable pub kind_byte : TxKind → ℕ
kind_byte TxKind.transfer = 0
kind_byte TxKind.mint = 1
kind_byte TxKind.burn = 2
kind_byte TxKind.freeze = 3
kind_byte TxKind.multi_asset = 4

-- The branches of `canonical` on an optional array, and on an optional vector.
unfoldable pub push_array : Option Bytes → Bytes
push_array (some r) = 1 ∷ r
push_array none = 0 ∷ []

unfoldable pub push_vec : Option Bytes → Bytes
push_vec (some p) = 1 ∷ (to_le_bytes 4 (length p % 2 ^ 32) ++ p)
push_vec none = 0 ∷ []

unfoldable pub canonical : SignedTx → Bytes
canonical tx =
    kind_byte tx.kind
    ∷ (to_le_bytes 4 tx.asset_id
        ++ (to_le_bytes 8 tx.nonce
            ++ (tx.signer
                ++ (push_array tx.recipient
                    ++ (tx.amount
                        ++ (tx.flag
                            ∷ (push_array tx.court_order_hash
                                ++ (push_vec tx.multi_payload
                                    ++ push_vec tx.originator_metadata))))))))
