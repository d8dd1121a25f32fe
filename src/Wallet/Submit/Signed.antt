-- ===== src/Wallet/Submit/Signed.antt =====
-- Signing changes the unlocking scripts alone.
use ord_indexer.Base.{
  ℕ, suc, ◌≡◌, refl, some, List, [], ◌∷◌, map, length, Returns, Returns-bind, ◌++◌, ◌+◌, ◌^◌, ◌<◌,
  ◌≤◌, done, length-append, arith,
}
use ord_indexer.Bitcoin.{ScriptBuf, OutPoint, TxIn, Transaction}
use ord_indexer.Wallet.Signer.{Crypto, account_to_derivation_path, sec1_to_der, unlocking_script}
use ord_indexer.Wallet.Signer.Der.{sec1_to_der-short}
use ord_indexer.Wallet.Submit.{Signer, Unsigned, sign_input, sign_inputs, sign}

-- The other crates and the management canister answer: a hash for each input of a transaction,
-- signatures of 64 bytes, keys of 33, and scripts of pushes that fit their lengths in 32 bits.
pub record IsAnswering (c : Crypto) : Type 0 where
  pub hash :
      (tx : Transaction) (i : ℕ) (script : ScriptBuf)
      → i < length tx.input
      → (h : List ℕ) × (c.legacy_signature_hash tx i script ≡ some h)
  pub signature :
      (h : List ℕ) (path : List (List ℕ))
      → (s : List ℕ) × (c.sign_with_ecdsa h path ≡ some s) × (length s ≡ 64)
  pub key : (path : List (List ℕ)) → length (c.derive_public_key path) ≡ 33
  pub push :
      (s pubkey : List ℕ)
      → length s < 2 ^ 32
      → length pubkey < 2 ^ 32
      → (script : ScriptBuf) × (c.push_slices s pubkey ≡ some script)

-- What an input keeps.
abbrev pub kept : TxIn → OutPoint × ℕ
kept i = (i.previous_output, i.sequence)

-- The script of an input pushes a signature and a key. The signature is the DER form of what the key
-- of the signer's path signs, of the hash of this input with the script that it spends, and is
-- followed by the byte of its type; the key is the one of the same path.
abbrev pub IsFor : Crypto → Transaction → ℕ → Signer → TxIn → Type 0
IsFor c cache index (address, account) i =
    (hash signature der : List ℕ) × (c.legacy_signature_hash cache index address.script_pubkey
      ≡ some hash)
    × (c.sign_with_ecdsa hash (account_to_derivation_path c account) ≡ some signature)
    × (sec1_to_der signature ≡ done der)
    × (c.push_slices (der ++ 1 ∷ []) (c.derive_public_key (account_to_derivation_path c account))
        ≡ some i.script_sig)

-- The same of all inputs from an index on.
abbrev pub AreFor : Crypto → Transaction → ℕ → List Signer → List TxIn → Type 0
AreFor c cache index [] is = Unit
AreFor c cache index (s ∷ ss) [] = Unit
AreFor c cache index (s ∷ ss) (i ∷ is) = IsFor c cache index s i × AreFor c cache (suc index) ss is

module _ (c : Crypto) (answers : IsAnswering c) where
  sign_input-Returns :
      (cache : Transaction) (index : ℕ) (s : Signer) (i : TxIn)
      → index < length cache.input
      → Returns (sign_input c cache index s i) (λ j. (kept j ≡ kept i) × IsFor c cache index s j)
  unfolding sign_input unlocking_script
  sign_input-Returns cache index (address, account) i inside =
      let path = account_to_derivation_path c account in
      let (h, hashed) = answers.hash cache index address.script_pubkey inside in
      let (sig, signed, long) = answers.signature h path in
      let (der, formed, short) = sec1_to_der-short sig long in
      let (script, pushed) =
        answers.push (der ++ 1 ∷ []) (c.derive_public_key path)
          (omega (arith, length-append der (1 ∷ []))) (omega (arith, answers.key path)) in
      rw (hashed, signed, formed, pushed) (refl, (h, sig, der, refl, signed, formed, pushed))

  sign_inputs-Returns :
      (cache : Transaction) (index : ℕ) (ss : List Signer) (is : List TxIn)
      → length ss ≡ length is
      → index + length is ≤ length cache.input
      → Returns
          (sign_inputs c cache index ss is)
          (λ js. (map kept js ≡ map kept is) × AreFor c cache index ss js)
  unfolding sign_inputs
  sign_inputs-Returns cache index [] [] e within = (refl, tt)
  sign_inputs-Returns cache index [] (i ∷ is) e within = absurd (omega arith)
  sign_inputs-Returns cache index (s ∷ ss) [] e within = absurd (omega arith)
  sign_inputs-Returns cache index (s ∷ ss) (i ∷ is) e within =
      Returns-bind (sign_input c cache index s i) _ _ _
        (sign_input-Returns cache index s i (omega arith))
        (λ j h.
          Returns-bind (sign_inputs c cache (suc index) ss is) _ _ _
            (sign_inputs-Returns cache (suc index) ss is (omega arith) (omega arith))
            (λ js k. (cc, (h.1, k.1))))

  -- Where each input has a signer and the other parties answer, signing does not panic. It keeps the
  -- outputs, and of each input what it spends and its sequence. It gives each input a script that
  -- pushes the DER form of the signature of this input's hash, made with the key of its signer, and
  -- this key.
  pub sign-Returns :
      (u : Unsigned)
      → length u.signers ≡ length u.txn.input
      → Returns (sign c u) (λ tx.
        (tx.output ≡ u.txn.output)
        × (map kept tx.input ≡ map kept u.txn.input)
        × AreFor c u.txn 0 u.signers tx.input)
  unfolding sign
  sign-Returns u e =
      Returns-bind (sign_inputs c u.txn 0 u.signers u.txn.input) _ _ _
        (sign_inputs-Returns u.txn 0 u.signers u.txn.input e (omega arith))
        (λ js h. (refl, h.0, h.1))
