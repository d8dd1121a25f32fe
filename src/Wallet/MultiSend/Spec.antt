-- ===== src/Wallet/MultiSend/Spec.antt =====
-- What a payment of two senders is.
use ord_indexer.Base.{ℕ, ◌+◌, ◌*◌, ◌≤◌, ◌<◌, ◌≡◌, ◌≢◌, Bool, List, [], ◌∷◌, ◌++◌, ◌⊎◌}
use ord_indexer.Bitcoin.{TxOut}
use ord_indexer.Wallet.Utxos.{Utxo, UtxoManager, btc_set, record_btc_utxos}
use ord_indexer.Wallet.Utxos.Laws.{value_of}
use ord_indexer.Wallet.Select.{Picked}
use ord_indexer.Wallet.Select.Laws.{copies, IsPicked}
use ord_indexer.Wallet.Txn.{Built, ok, refused, dust_threshold, inputs_for, paid_out}
use ord_indexer.Wallet.Transfer.Spec.{IsUsable, Restored}
use ord_indexer.Wallet.MultiSend.{Arguments, total_amounts, Draft}
use ord_indexer.Wallet.MultiSend.Amounts.{received, IsChange}

module _ (a : Arguments) (fee : ℕ) where
  -- A payment of two senders spends outputs of each, all of which leave the record. It pays the
  -- receiver first and then what each sender gets back, and loses no more than twice the dust beside
  -- its fee.
  pub record IsPayment (m : UtxoManager) (d : Draft) (m' : UtxoManager) : Type 0 where
    pub inputs : d.txn.input ≡ inputs_for d.utxos0 ++ inputs_for d.utxos1
    pub spent0 :
        (u : Utxo)
        → copies u d.utxos0 + copies u (btc_set a.addr0 m') ≡ copies u (btc_set a.addr0 m)
    pub spent1 :
        (u : Utxo)
        → copies u d.utxos1 + copies u (btc_set a.addr1 m') ≡ copies u (btc_set a.addr1 m)
    pub outputs :
        (rest0 rest1 : List TxOut) × (d.txn.output
          ≡ record { value = received a fee; script_pubkey = a.receiver.script_pubkey } ∷ rest0
            ++ rest1)
        × IsChange a.address0 (value_of d.utxos0) (total_amounts a fee).0 rest0
        × IsChange a.address1 (value_of d.utxos1) (total_amounts a fee).1 rest1
    pub least_fee : paid_out d.txn.output + fee ≤ value_of d.utxos0 + value_of d.utxos1
    pub most_fee :
        value_of d.utxos0 + value_of d.utxos1 ≤ paid_out d.txn.output + fee + 2 * dust_threshold
    pub share0 : (total_amounts a fee).0 ≤ value_of d.utxos0
    pub share1 : (total_amounts a fee).1 ≤ value_of d.utxos1

  -- The result of the builder: a payment, or a sender who holds too little and the record restored.
  unfoldable pub IsBuilt : UtxoManager → Built (ℕ × ℕ) Draft × UtxoManager → Type 0
  IsBuilt m (ok d, m') = IsPayment m d m'
  IsBuilt m (refused (need0, need1), m') =
      ((value_of (btc_set a.addr0 m) < need0) ⊎ (value_of (btc_set a.addr1 m) < need1))
      × Restored a.addr0 m m'
      × Restored a.addr1 m m'

  module _ (stop0 stop1 : ℕ → Bool) (m : UtxoManager) (p0 p1 : Picked) (apart : a.addr0 ≢ a.addr1)
      (usable0 : IsUsable a.addr0 m) (usable1 : IsUsable a.addr1 m)
      (q0 : IsPicked stop0 a.addr0 [] m p0) (q1 : IsPicked stop1 a.addr1 [] p0.manager p1) where
    abbrev back : UtxoManager
    back = record_btc_utxos a.addr1 p1.utxos (record_btc_utxos a.addr0 p0.utxos p1.manager)
