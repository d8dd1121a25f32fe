-- ===== src/Wallet/Kinds.antt =====
-- The transactions that wait for their signatures (`TransactionType` of
-- wallet/src/transaction_handler.rs). Each variant is a record of its own.
use ord_indexer.Base.{ℕ, Bool, Option, List}
use ord_indexer.Bitcoin.{Transaction}
use ord_indexer.Runes.{RuneId}
use ord_indexer.Wallet.Utxos.{Addr, Utxo, RunicUtxo}
use ord_indexer.Wallet.Txn.{Address}

-- An account of the ledger: a principal and a subaccount, as bytes.
pub record Account : Type 0 where
  pub owner : List ℕ
  pub subaccount : Option (List ℕ)

-- `TransactionType::Bitcoin`, with the fee that the loop found last, which the source drops
pub record Bitcoin : Type 0 where
  pub addr : Addr
  pub utxos : List Utxo
  pub signer_account : Account
  pub signer_address : Address
  pub txn : Transaction
  pub fee : ℕ

-- `TransactionType::LegoBitcoin`
pub record LegoBitcoin : Type 0 where
  pub addr0 : Addr
  pub addr1 : Addr
  pub account0 : Account
  pub account1 : Account
  pub address0 : Address
  pub address1 : Address
  pub utxos0 : List Utxo
  pub utxos1 : List Utxo
  pub amount0 : ℕ
  pub amount1 : ℕ
  pub fee : ℕ
  pub paid_by_sender : Bool
  pub receiver : Address

-- `TransactionType::Runestone`
pub record RunestoneTransfer : Type 0 where
  pub sender_addr : Addr
  pub receiver_addr : Addr
  pub sender_account : Account
  pub receiver_account : Account
  pub runeid : RuneId
  pub amount : ℕ
  pub fee : ℕ
  pub runic_utxos : List RunicUtxo
  pub fee_utxos : List Utxo
  pub paid_by_sender : Bool
  pub sender_address : Address
  pub receiver_address : Address
  pub postage : ℕ

-- `TransactionType::Combined`
pub record Combined : Type 0 where
  pub sender_addr : Addr
  pub receiver_addr : Addr
  pub sender_address : Address
  pub receiver_address : Address
  pub sender_account : Account
  pub receiver_account : Account
  pub runic_utxos : List RunicUtxo
  pub btc_utxos : List Utxo
  pub fee_utxos : List Utxo
  pub runeid : RuneId
  pub rune_amount : ℕ
  pub btc_amount : ℕ
  pub fee : ℕ
  pub postage : ℕ
  pub paid_by_sender : Bool

pub data TransactionType : Type 0 where
  bitcoin : Bitcoin → TransactionType
  lego_bitcoin : LegoBitcoin → TransactionType
  runestone : RunestoneTransfer → TransactionType
  combined : Combined → TransactionType
