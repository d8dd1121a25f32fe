-- ===== src/Wallet/Txn.antt =====
-- What the wallet's transactions are made of (the parts that the files of wallet/src/bitcoin and
-- wallet/src/transaction_handler.rs repeat): inputs, outputs, and the fee of a signed size.
use ord_indexer.Base.{
  ℕ, ◌-◌, ◌^◌, ◌≡◌, refl, List, [], ◌∷◌, map, length, All, ◌==◌, if◌then◌else◌, Outcome, done,
  panic, ◌>>=◌, Returns, Ensures, mul64, ◌/◌,
}
use ord_indexer.Bitcoin.{ScriptBuf, OutPoint, TxIn, TxOut, Transaction}
use ord_indexer.Wallet.Utxos.{Utxo}
use ord_indexer.Wallet.Sets.{sum_by}
use ord_indexer.Wallet.Select.Laws.{IsTxid}

-- An address of the crate `bitcoin`: of it the wallet uses the script alone.
pub record Address : Type 0 where
  pub script_pubkey : ScriptBuf

abbrev pub dust_threshold : ℕ
dust_threshold = 1000

-- `Result` of a builder: what was built, or what it would have needed.
pub data Built (E A : Type 0) : Type 0 where
  ok : A → Built E A
  refused : E → Built E A

-- The unsigned input that spends an outpoint.
abbrev pub input_of : OutPoint → TxIn
input_of p = record { previous_output = p; script_sig = []; sequence = 2 ^ 32 - 1; witness = [] }

abbrev pub outpoint_of : Utxo → OutPoint
outpoint_of u = record { txid = u.txid; vout = u.vout }

-- `Hash::from_slice(&utxo.outpoint.txid)` is an error but for 32 bytes, and then the code panics.
unfoldable pub to_input : Utxo → Outcome TxIn
to_input u = if length u.txid == 32 then done (input_of (outpoint_of u)) else panic

unfoldable pub to_inputs : List Utxo → Outcome (List TxIn)
unfolding to_input
to_inputs [] = done []
to_inputs (u ∷ us) = do i ← to_input u; is ← to_inputs us; done (i ∷ is)

abbrev pub txn_of : List TxIn → List TxOut → Transaction
txn_of input output = record { version = 2; lock_time = 0; input = input; output = output }

-- `(txn_vsize * fee_per_vbytes) / 1000`
abbrev pub fee_of : ℕ → ℕ → ℕ
fee_of vsize fee_per_vbytes = mul64 vsize fee_per_vbytes / 1000

-- The inputs that spend the outputs of a list.
abbrev pub inputs_for : List Utxo → List TxIn
inputs_for = map (λ u. input_of (outpoint_of u))

-- The value of the outputs of a transaction.
abbrev pub paid_out : List TxOut → ℕ
paid_out = sum_by (λ (out : TxOut). out.value)

pub to_inputs-Returns : (us : List Utxo) → All IsTxid us → to_inputs us ≡ done (inputs_for us)
unfolding to_inputs
to_inputs-Returns [] h = refl
to_inputs-Returns (u ∷ us) h = rw (h.0, to_inputs-Returns us h.1) refl

-- A call that follows a builder, by what the builder gives.
module _ {E A M B : Type 0} where
  pub Built-bind :
      (x : Outcome (Built E A × M)) (f : Built E A × M → Outcome B) (P : Built E A × M → Type 0)
      (Q : B → Type 0)
      → Returns x P
      → ((e : E) (m : M) → P (refused e, m) → Returns (f (refused e, m)) Q)
      → ((a : A) (m : M) → P (ok a, m) → Returns (f (ok a, m)) Q)
      → Returns (x >>= f) Q
  Built-bind (done (refused e, m)) f P Q h short built = short e m h
  Built-bind (done (ok a, m)) f P Q h short built = built a m h
  Built-bind panic f P Q h short built = absurd h

  -- The same where the call may panic.
  pub Built-ensures :
      (x : Outcome (Built E A × M)) (f : Built E A × M → Outcome B) (P : Built E A × M → Type 0)
      (Q : B → Type 0)
      → Ensures x P
      → ((e : E) (m : M) → P (refused e, m) → Ensures (f (refused e, m)) Q)
      → ((a : A) (m : M) → P (ok a, m) → Ensures (f (ok a, m)) Q)
      → Ensures (x >>= f) Q
  Built-ensures (done (refused e, m)) f P Q h short built = short e m h
  Built-ensures (done (ok a, m)) f P Q h short built = built a m h
  Built-ensures panic f P Q h short built = tt
