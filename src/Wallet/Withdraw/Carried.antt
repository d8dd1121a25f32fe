-- ===== src/Wallet/Withdraw/Carried.antt =====
-- What the withdrawal of runes sends (`withdraw_runestone` of wallet/src/lib.rs), whatever the
-- ledger, the indexer and the fee are.
use ord_indexer.Base.{ℕ, ◌≡◌, none, List}
use ord_indexer.Bitcoin.{OutPoint, TxOut}
use ord_indexer.Wallet.Utxos.{RunicUtxo}
use ord_indexer.Wallet.RuneOutputs.{default_postage}
use ord_indexer.Wallet.RuneTransfer.{Arguments}
use ord_indexer.Wallet.Withdraw.{World, Sent}
use ord_indexer.Wallet.Withdraw.Sending.{Sends}
use ord_indexer.Wallet.Withdraw.Known.{Tells}
use ord_indexer.Wallet.Withdraw.Carriers.{Carries}

module _ (P : RunicUtxo → Type 0) (w : World) (pages rounds : ℕ) (a : Arguments)
    (default : a.postage ≡ none) (tells : Tells P a.sender_addr a.runeid w.ledger) where
  abbrev CarriedOut : List OutPoint → List TxOut → Type 0
  CarriedOut = Carries P w a.runeid a.amount a.sender_address a.receiver_address default_postage

  abbrev Q : Sent → Type 0
  Q = Sends w CarriedOut
