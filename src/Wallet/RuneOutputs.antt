-- ===== src/Wallet/RuneOutputs.antt =====
-- What the transfers of runes share (wallet/src/bitcoin/runestone.rs, wallet/src/bitcoin/combined_txn.rs,
-- and the same lines in wallet/src/transaction_handler.rs): the postage, the runestone, and the
-- outputs that carry the rune.
use ord_indexer.Base.{
  ℕ, ◌*◌, Bool, Option, none, some, List, [], ◌∷◌, length, ltb, ◌||◌, if◌then◌else◌, Outcome, done,
  panic, map, u64_size,
}
use ord_indexer.Bitcoin.{ScriptBuf, TxOut}
use ord_indexer.Runes.{RuneId, Runestone}
use ord_indexer.Wallet.Utxos.{Utxo, RunicUtxo}
use ord_indexer.Wallet.Txn.{Address}

abbrev pub default_postage : ℕ
default_postage = 10000

-- `Amount::from_sat(postage.unwrap_or(DEFAULT_POSTAGE))`
abbrev pub postage_or_default : Option ℕ → ℕ
postage_or_default none = default_postage
postage_or_default (some postage) = postage

-- Whether the sender gets runes back.
abbrev pub need_change_rune_output : ℕ → ℕ → List RunicUtxo → Bool
need_change_rune_output runic_total_spent amount utxos =
    ltb amount runic_total_spent || ltb 1 (length utxos)

-- `postage * 2` of an `Amount` panics on an overflow.
abbrev pub required_btc_for_rune_output : Bool → ℕ → Outcome ℕ
required_btc_for_rune_output need_change postage =
    if need_change
    then (if ltb (postage * 2) u64_size then done (postage * 2) else panic)
    else done postage

-- The runestone with one edict, which sends an amount to output 2.
abbrev pub runestone_for : RuneId → ℕ → Runestone
runestone_for runeid amount = record {
  edicts = record { id = runeid; amount = amount; output = 2 } ∷ [];
  etching = none;
  mint = none;
  pointer = none;
}

abbrev pub postage_to : Address → ℕ → TxOut
postage_to address postage = record { value = postage; script_pubkey = address.script_pubkey }

-- The outputs that carry the rune. `encipher` is the crate `ordinals`.
abbrev pub rune_outputs :
    (Runestone → ScriptBuf) → RuneId → ℕ → Bool → Address → Address → ℕ → List TxOut
rune_outputs encipher runeid amount need_change sender receiver postage =
    if need_change
    then record { value = 0; script_pubkey = encipher (runestone_for runeid amount) }
      ∷ postage_to sender postage
      ∷ postage_to receiver postage
      ∷ []
    else postage_to receiver postage ∷ []

-- The plain outputs of runic ones.
abbrev pub plain : List RunicUtxo → List Utxo
plain = map (λ (u : RunicUtxo). u.utxo)
