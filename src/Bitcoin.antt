-- ===== src/Bitcoin.antt =====
-- The data of the crate `bitcoin` that both canisters read and build: hashes, outpoints,
-- transactions. Scripts are the crate's; here they are their bytes.
use ord_indexer.Base.{ℕ, List, ℕ_discrete, replicate}

-- The 32 bytes of a transaction id, and of a block hash.
abbrev pub Txid : Type 0
Txid = List ℕ

abbrev pub BlockHash : Type 0
BlockHash = List ℕ

abbrev pub all_zeros : List ℕ
all_zeros = replicate 32 0

abbrev pub ScriptBuf : Type 0
ScriptBuf = List ℕ

pub record OutPoint : Type 0 where
  pub txid : Txid
  pub vout : ℕ

pub record TxIn : Type 0 where
  pub previous_output : OutPoint
  pub script_sig : ScriptBuf
  pub sequence : ℕ
  pub witness : List (List ℕ)

pub record TxOut : Type 0 where
  pub value : ℕ
  pub script_pubkey : ScriptBuf

pub record Transaction : Type 0 where
  pub version : ℕ
  pub lock_time : ℕ
  pub input : List TxIn
  pub output : List TxOut

unfoldable pub OutPoint-discrete : Discrete OutPoint
unfolding ℕ_discrete
OutPoint-discrete = hlevel ℕ_discrete

unfoldable pub BlockHash-discrete : Discrete BlockHash
unfolding ℕ_discrete
BlockHash-discrete = hlevel ℕ_discrete
