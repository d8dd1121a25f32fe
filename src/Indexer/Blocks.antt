-- ===== src/Indexer/Blocks.antt =====
-- Blocks (ord_canister/src/index/updater.rs) and what the indexer asks a bitcoin node. The hashes
-- and the check of the merkle root are the crate `bitcoin`'s and are parameters; the node's answers
-- are those of the functions of ord_canister/src/rpc.rs.
pub mod Heights
use Prim.Native.String.{String}
use ord_indexer.Base.{
  ℕ, suc, Bool, true, false, List, [], ◌∷◌, map, Outcome, done, ◌>>=◌, unwrap, u32_of,
}
use ord_indexer.Bitcoin.{Txid, BlockHash, Transaction}
use ord_indexer.Runes.{OrdError, Result, ok, err, Ordinals}
use ord_indexer.Indexer.Tables.{Tables, increase_height}
use ord_indexer.Indexer.Updater.{RuneUpdater, index_runes, update}

pub record Header : Type 0 where
  pub version : ℕ
  pub prev_blockhash : BlockHash
  pub merkle_root : List ℕ
  pub time : ℕ
  pub bits : ℕ
  pub nonce : ℕ

pub record Block : Type 0 where
  pub header : Header
  pub txdata : List Transaction

-- The functions of `bitcoin` that hash.
pub record Hashing : Type 0 where
  -- `Transaction::txid`
  pub txid : Transaction → Txid
  -- `Header::block_hash`
  pub block_hash : Header → BlockHash
  -- `Block::check_merkle_root`
  pub check_merkle_root : Block → Bool

-- What a node answers, by the address it is asked at. A header's answer holds its height.
pub record Node : Type 0 where
  pub get_best_block_hash : String → Result BlockHash
  pub get_block_header : String → BlockHash → Result ℕ
  pub get_block_hash : String → ℕ → Result BlockHash
  pub get_block : String → BlockHash → Result Block

pub record BlockData : Type 0 where
  pub header : Header
  pub txdata : List (Transaction × Txid)

module _ (o : Ordinals) where
  -- The loop of `index_block`.
  unfoldable pub index_txs :
      ℕ → List (Transaction × Txid) → RuneUpdater → Tables → Outcome (RuneUpdater × Tables)
  index_txs i [] u t = done (u, t)
  index_txs i ((tx, txid) ∷ txs) u t = do
    n ← unwrap (u32_of i)
    (u', t') ← index_runes o u n tx txid t
    index_txs (suc i) txs u' t'

  abbrev pub start_updater : ℕ → Header → RuneUpdater
  start_updater height header = record {
    block_time = header.time;
    burned = [];
    height = height;
    minimum = o.minimum_at_height height;
  }

module _ (h : Hashing) where
  -- `BlockData::from`
  unfoldable pub from_block : Block → BlockData
  from_block block = record {
    header = block.header;
    txdata = map (λ tx. (tx, h.txid tx)) block.txdata;
  }

  -- No call in it returns an error, so the result is what becomes of the tables.
  unfoldable pub index_block : Ordinals → ℕ → BlockData → Tables → Outcome Tables
  index_block o height block t = do
    (u, t') ← index_txs o 0 block.txdata (start_updater o height block.header) t
    t'' ← update u t'
    done (increase_height height (h.block_hash block.header) t'')

  abbrev check_block : ℕ → Block → Result BlockData
  check_block height block = elim (h.check_merkle_root block) [
    | true ↦ ok (from_block block)
    | false ↦ err (OrdError.block_verification height)
  ]

  -- `updater::get_block`
  unfoldable pub get_block : Node → String → ℕ → Result BlockData
  get_block node url height = elim (node.get_block_hash url height) [
    | err e ↦ err e
    | ok hash ↦ elim (node.get_block url hash) [
      | err e ↦ err e
      | ok block ↦ check_block height block
    ]
  ]
