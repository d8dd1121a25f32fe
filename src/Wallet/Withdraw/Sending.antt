-- ===== src/Wallet/Withdraw/Sending.antt =====
-- What is signed and submitted is what was built, up to the scripts of the inputs
-- (`build_and_submit` of wallet/src/transaction_handler.rs, as the withdrawals call it).
use ord_indexer.Base.{
  suc, map, unwrap, Option, none, some, [], ◌∷◌, refl, ℕ, ◌≡◌, true, List, Ensures, Ensures-bind,
  Ensures-after, Bool-cases, inl, inr,
}
use ord_indexer.Bitcoin.{OutPoint, TxIn, TxOut, Transaction}
use ord_indexer.Wallet.Utxos.{UtxoManager}
use ord_indexer.Wallet.Signer.{account_to_derivation_path, unlocking_script}
use ord_indexer.Wallet.Kinds.{TransactionType}
use ord_indexer.Wallet.Submit.{
  Unsigned, unsigned_of, sign, sign_inputs, sign_input, Signer, build_and_submit, hand, Handed,
}
use ord_indexer.Wallet.Flow.{◌>>=◌, return, expect, run, Gives, Gives-bind, Gives-run}
use ord_indexer.Wallet.Withdraw.{World, Sent, submit}

abbrev spent : TxIn → OutPoint
spent i = i.previous_output

-- The outputs that a transaction spends.
abbrev pub spends : Transaction → List OutPoint
spends tx = map spent tx.input

-- The network was handed one transaction and no other, and took it; the identifier is of this
-- transaction, and what it spends and pays is such.
abbrev IsSent : World → (List OutPoint → List TxOut → Type 0) → List ℕ → Handed → Type 0
IsSent w P txid handed =
    (tx : Transaction) × (handed ≡ w.crypto.serialize tx ∷ [])
    × (w.crypto.send_transaction (w.crypto.serialize tx) ≡ true)
    × (txid ≡ w.crypto.compute_txid tx)
    × P (spends tx) tx.output

abbrev pub Sends : World → (List OutPoint → List TxOut → Type 0) → Sent → Type 0
Sends w P s = IsSent w P s.txid s.handed

-- The same of what `build_and_submit` gives.
abbrev Submits : World → (List OutPoint → List TxOut → Type 0) → Option (List ℕ) × Handed → Type 0
Submits w P (none, handed) = Unit
Submits w P (some txid, handed) = IsSent w P txid handed

sign_inputs-spent :
    (w : World) (cache : Transaction) (index : ℕ) (signers : List Signer) (is : List TxIn)
    → Ensures (sign_inputs w.crypto cache index signers is) (λ js. map spent js ≡ map spent is)
unfolding sign_inputs sign_input
sign_inputs-spent w cache index signers [] = refl
sign_inputs-spent w cache index [] (i ∷ is) = tt
sign_inputs-spent w cache index ((address, account) ∷ signers) (i ∷ is) =
    let script = address.script_pubkey in
    let path = account_to_derivation_path w.crypto account in
    Ensures-bind (sign_input w.crypto cache index (address, account) i) _ (λ j. spent j ≡ spent i) _
      (Ensures-after (unwrap (w.crypto.legacy_signature_hash cache index script)) _ _ (λ hash.
        Ensures-after (unwrap (w.crypto.sign_with_ecdsa hash path)) _ _ (λ signature.
          Ensures-after (unlocking_script w.crypto signature (w.crypto.derive_public_key path)) _
            (λ (j : TxIn). spent j ≡ spent i) (λ unlocking. refl))))
      (λ j here.
        Ensures-bind (sign_inputs w.crypto cache (suc index) signers is) _
          (λ js. map spent js ≡ map spent is) _ (sign_inputs-spent w cache (suc index) signers is)
          (λ js rest. cc))

sign-output :
    (w : World) (u : Unsigned)
    → Ensures (sign w.crypto u) (λ tx. (spends tx ≡ spends u.txn) × (tx.output ≡ u.txn.output))
unfolding sign
sign-output w u =
    Ensures-bind (sign_inputs w.crypto u.txn 0 u.signers u.txn.input) _ _ _
      (sign_inputs-spent w u.txn 0 u.signers u.txn.input) (λ input same. (same, refl))

module _ (w : World) (pages rounds : ℕ) (P : List OutPoint → List TxOut → Type 0) where
  build_and_submit-Submits :
      (t : TransactionType)
      → Ensures (unsigned_of w.encipher t) (λ u. P (spends u.txn) u.txn.output)
      → Ensures (build_and_submit w.crypto w.encipher t []) (Submits w P)
  unfolding build_and_submit hand
  build_and_submit-Submits t outputs =
      Ensures-bind (unsigned_of w.encipher t) _ (λ u. P (spends u.txn) u.txn.output) (Submits w P)
        outputs
        (λ u h.
          Ensures-bind (sign w.crypto u) _
            (λ tx. (spends tx ≡ spends u.txn) × (tx.output ≡ u.txn.output)) (Submits w P)
            (sign-output w u)
            (λ tx same. elim (Bool-cases (w.crypto.send_transaction (w.crypto.serialize tx))) [
              | inl taken ↦ rw taken (tx, refl, taken, refl, rw (same.0, same.1) h)
              | inr lost ↦ rw lost tt
            ]))

  pub submit-Sends :
      (t : TransactionType) (m : UtxoManager)
      → Ensures (unsigned_of w.encipher t) (λ u. P (spends u.txn) u.txn.output)
      → Gives (submit w pages rounds t m) (Sends w P)
  unfolding submit
  submit-Sends t m outputs =
      Gives-bind (run (build_and_submit w.crypto w.encipher t [])) _ (Submits w P) (Sends w P)
        (Gives-run (build_and_submit w.crypto w.encipher t []) (Submits w P)
          (build_and_submit-Submits t outputs))
        sent
    where
      sent :
          (x : Option (List ℕ) × Handed)
          → Submits w P x
          → Gives
              (expect x.0 >>= λ txid. return (record { txid = txid; handed = x.1; manager = m }))
              (Sends w P)
      sent (none, handed) h = tt
      sent (some txid, handed) h = h
