-- ===== src/Wallet/Signer.antt =====
-- Signatures: the derivation path of an account, the DER form of a signature
-- (wallet/src/bitcoin/utils.rs), and the mock signatures that the fee is computed from
-- (wallet/src/bitcoin/signer.rs). Key derivation, ECDSA, hashes of transactions, the pushes of a
-- script and the size of a transaction are of other crates and of the management canister.
pub mod Der
mod Tests
use ord_indexer.Base.{
  ℕ, ◌+◌, ◌%◌, Bool, Option, List, [], ◌∷◌, ◌++◌, length, get_elem?, take, drop, replicate, leb,
  if◌then◌else◌, Outcome, done, ◌>>=◌, unwrap,
}
use ord_indexer.Bitcoin.{ScriptBuf, TxIn, Transaction}
use ord_indexer.Wallet.Kinds.{Account}

abbrev pub DerivationPath : Type 0
DerivationPath = List (List ℕ)

-- What the wallet asks of other crates and of the management canister.
pub record Crypto : Type 0 where
  -- `Account::effective_subaccount`
  pub effective_subaccount : Account → List ℕ
  -- the public key that belongs to a path
  pub derive_public_key : DerivationPath → List ℕ
  -- `SighashCache::legacy_signature_hash`, of an input and a script
  pub legacy_signature_hash : Transaction → ℕ → ScriptBuf → Option (List ℕ)
  -- `sign_with_ecdsa`, of a hash and a path
  pub sign_with_ecdsa : List ℕ → DerivationPath → Option (List ℕ)
  -- a script that pushes two slices, which are too long past a bound
  pub push_slices : List ℕ → List ℕ → Option ScriptBuf
  pub vsize : Transaction → ℕ
  pub serialize : Transaction → List ℕ
  pub compute_txid : Transaction → List ℕ
  -- `bitcoin_send_transaction`: whether the network takes the bytes
  pub send_transaction : List ℕ → Bool

abbrev pub account_to_derivation_path : Crypto → Account → DerivationPath
account_to_derivation_path c a = (1 ∷ []) ∷ a.owner ∷ c.effective_subaccount a ∷ []

-- A part of a signature as an integer of DER: a high bit wants a zero byte before it.
abbrev pub der_integer : ℕ → List ℕ → List ℕ
der_integer first part = if leb 128 first then 0 ∷ part else part

unfoldable pub sec1_to_der : List ℕ → Outcome (List ℕ)
sec1_to_der sig = do
  first ← unwrap (get_elem? sig 0)
  second ← unwrap (get_elem? sig 32)
  let r = der_integer first (take 32 sig)
  let s = der_integer second (drop 32 sig)
  done (
      0x30
      ∷ (4 + length r + length s) % 256
      ∷ 0x02
      ∷ length r % 256
      ∷ (r ++ (0x02 ∷ length s % 256 ∷ s)))

module _ (c : Crypto) where
  -- The script that unlocks an output: the signature with its type, then the public key.
  unfoldable pub unlocking_script : List ℕ → List ℕ → Outcome ScriptBuf
  unfolding sec1_to_der
  unlocking_script signature pubkey = do
    der ← sec1_to_der signature
    unwrap (c.push_slices (der ++ 1 ∷ []) pubkey)

  unfoldable pub mock_inputs : List ℕ → List TxIn → Outcome (List TxIn)
  unfolding unlocking_script
  mock_inputs pubkey [] = done []
  mock_inputs pubkey (i ∷ is) = do
    script ← unlocking_script (replicate 64 255) pubkey
    rest ← mock_inputs pubkey is
    done (
        record {
          previous_output = i.previous_output;
          script_sig = script;
          sequence = 0xFFFFFFFD;
          witness = [];
        }
        ∷ rest)

  unfoldable pub mock_signature : Transaction → Outcome Transaction
  unfolding mock_inputs
  mock_signature tx = do
    input ← mock_inputs (c.derive_public_key []) tx.input
    done (record tx { input = input })
