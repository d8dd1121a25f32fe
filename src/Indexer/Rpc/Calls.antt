-- ===== src/Indexer/Rpc/Calls.antt =====
-- The four questions to the node (`get_block_hash`, `get_block_header`, `get_best_block_hash` and
-- `get_block` of ord_canister/src/rpc.rs).
use Prim.Native.String.{String}
use ord_indexer.Base.{ℕ, Option, none, some, done, ◌>>=◌, ◌⊎◌, inl, inr}
use ord_indexer.Bitcoin.{BlockHash}
use ord_indexer.Runes.{RpcError, OrdError, Result, ok, err}
use ord_indexer.Indexer.Blocks.{Block}
use ord_indexer.Indexer.Rpc.{
  max_response, empty_list, at_height, verbose_of, raw_of, Serde, Network, Call, make_rpc,
}

module _ (s : Serde) (net : Network) (url : String) where
  -- A further decoding, whose error is the text `e`.
  abbrev decode {ℓ} : {A : Type ℓ} → String → String ⊎ A → Result A
  decode endpoint (inl e) = err (OrdError.rpc (RpcError.decode endpoint url e))
  decode endpoint (inr a) = ok a

  abbrev then_decode : {A B : Type 0} → (A → Result B) → Option (Result A) → Option (Result B)
  then_decode f none = none
  then_decode f (some (err e)) = some (err e)
  then_decode f (some (ok a)) = some (f a)

  unfoldable pub get_block_hash : ℕ → ℕ → Call BlockHash
  unfolding make_rpc
  get_block_hash height fuel = do
    r ← make_rpc s net url s.text_reply "getblockhash" (at_height height) 2048 fuel
    done (then_decode (λ text. decode "getblockhash" (s.hash_from_str text)) r)

  unfoldable pub get_block_header : BlockHash → ℕ → Call ℕ
  unfolding make_rpc
  get_block_header hash fuel =
      make_rpc s net url s.height_reply "getblockheader" (verbose_of hash) 2048 fuel

  unfoldable pub get_best_block_hash : ℕ → Call BlockHash
  unfolding make_rpc
  get_best_block_hash fuel = do
    r ← make_rpc s net url s.text_reply "getbestblockhash" empty_list 2048 fuel
    done (then_decode (λ text. decode "getbestblockhash" (s.hash_from_str text)) r)

  abbrev decode_block : String → Result Block
  decode_block text = elim (s.from_hex text) [
    | inl e ↦ err (OrdError.rpc (RpcError.decode "getblock" url e))
    | inr bytes ↦ decode "getblock" (s.deserialize bytes)
  ]

  unfoldable pub get_block : BlockHash → ℕ → Call Block
  unfolding make_rpc
  get_block hash fuel = do
    r ← make_rpc s net url s.text_reply "getblock" (raw_of hash) max_response fuel
    done (then_decode decode_block r)
