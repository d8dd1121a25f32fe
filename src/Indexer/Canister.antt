-- ===== src/Indexer/Canister.antt =====
-- The calls of the indexer canister (ord_canister/src/canister.rs). Reading and printing hashes and
-- spaced runes is the work of other crates and the parameter `x`; names of headers are their bytes.
-- The logs over `http_request` are left out.
pub mod First
mod Tests
use Prim.Native.String.{String}
use ord_indexer.Base.Texts.{codes, to_ascii_lowercase, same_bytes}
use ord_indexer.Base.{
  ℕ, ◌+◌, ◌≡◌, Bool, true, false, ◌&&◌, ◌||◌, not, Option, none, some, List, [], ◌∷◌, map, Dict,
  lookup, ltb, leb, ◌==◌, if◌then◌else◌, Outcome, done, panic, ◌>>=◌, unwrap, take, ◌⊎◌, inl, inr,
}
use ord_indexer.Bitcoin.{Txid, BlockHash, OutPoint, OutPoint-discrete}
use ord_indexer.Runes.{RuneId, RuneId-discrete, RuneBalance, SpacedRune, OrdError, Result, ok, err}
use ord_indexer.Indexer.Entry.{RuneEntry}
use ord_indexer.Indexer.Tables.{Tables, highest_block}
use ord_indexer.Indexer.Lookups.{init_rune}
use ord_indexer.Indexer.Memory.{
  Cells, tables_of, put_tables, set_url, set_first_block_hash, StableMemory, init_storage,
  persistence, restore,
}
use ord_indexer.Indexer.Sync.{Timer, armed}

-- A text that is read is an error's text or the value.
pub record Text : Type 0 where
  -- `Txid::from_str`
  pub txid_from_str : String → String ⊎ Txid
  -- `BlockHash::from_str`
  pub hash_from_str : String → Option BlockHash
  -- `BlockHash::to_string`
  pub hash_to_string : BlockHash → String
  -- `SpacedRune::to_string`
  pub spaced_rune_to_string : SpacedRune → String

abbrev or_empty : Option (List RuneBalance) → List RuneBalance
or_empty none = []
or_empty (some l) = l

-- The balances of the interface have the fields of those that are stored.
unfoldable pub get_runes_by_utxo : Text → String → ℕ → Tables → Result (List RuneBalance)
get_runes_by_utxo x txid vout t = elim (x.txid_from_str txid) [
  | inl e ↦ err (OrdError.params e)
  | inr id ↦ ok (
      or_empty
        (lookup OutPoint-discrete (record { txid = id; vout = vout }) t.outpoint_to_rune_balances))
]

unfoldable pub get_height : Text → Tables → Outcome (Result (ℕ × String))
get_height x t = do (height, hash) ← highest_block t; done (ok (height, x.hash_to_string hash))

pub record HttpHeader : Type 0 where
  pub name : List ℕ
  pub value : List ℕ

pub record HttpResponse : Type 0 where
  pub status : ℕ
  pub headers : List HttpHeader
  pub body : List ℕ

-- `should_keep` of ord_canister/src/rpc.rs
unfoldable pub should_keep : List ℕ → Bool
unfolding same_bytes
should_keep header =
    let h = to_ascii_lowercase header in
    same_bytes h (codes "content-length") || same_bytes h (codes "content-range")

abbrev filter : (HttpHeader → Bool) → List HttpHeader → List HttpHeader
filter p [] = []
filter p (h ∷ hs) = let rest = filter p hs in if p h then h ∷ rest else rest

unfoldable pub rpc_transform : HttpResponse → HttpResponse
unfolding should_keep
rpc_transform response = record {
  status = response.status;
  headers = filter (λ h. should_keep h.name) response.headers;
  body = response.body;
}

-- The call is given whether its caller is a controller; an error is its text.
unfoldable pub admin_set_url : Bool → String → Cells → (String ⊎ Unit {0}) × Cells
unfolding set_url
admin_set_url false url c = (inl "Not authorized", c)
admin_set_url true url c = (inr tt, set_url url c)

pub record CandidRuneEntry : Type 0 where
  pub runeid : RuneId
  pub block : ℕ
  pub divisibility : ℕ
  pub id : ℕ
  pub runename : String
  pub symbol : Option ℕ

-- `CandidRuneEntry::from`
unfoldable pub candid_rune_entry : Text → RuneId × RuneEntry → CandidRuneEntry
candid_rune_entry x (id, entry) = record {
  runeid = id;
  block = entry.block;
  divisibility = entry.divisibility;
  id = entry.spaced_rune.rune;
  runename = x.spaced_rune_to_string entry.spaced_rune;
  symbol = entry.symbol;
}

unfoldable pub get_rune_entry_by_runeid : Text → RuneId → Tables → Option CandidRuneEntry
unfolding candid_rune_entry
get_rune_entry_by_runeid x runeid t = elim (lookup RuneId-discrete runeid t.rune_id_to_rune_entry) [
  | none ↦ none
  | some entry ↦ some (candid_rune_entry x (runeid, entry))
]

unfoldable pub get_50_rune_entries : Text → Tables → List CandidRuneEntry
unfolding candid_rune_entry
get_50_rune_entries x t = map (candid_rune_entry x) (take 50 t.rune_id_to_rune_entry)

module _ {Heap : Type 0} (m : StableMemory Heap) (x : Text) where
  -- The installation; it ends with a timer for the synchronisation.
  unfoldable pub init : String → String → Heap → Cells → Outcome (Timer × Cells × Heap)
  init url first_block_hash heap c = do
    let (c₁, heap₁) = init_storage m heap c
    let c₂ = set_url url c₁
    t ← tables_of c₂
    t' ← init_rune (x.hash_from_str first_block_hash) t
    let c₃ = set_first_block_hash first_block_hash (put_tables t' c₂)
    done (armed 1, c₃, heap₁)

  unfoldable pub pre_upgrade : Heap → Cells → Outcome (Cells × Heap)
  pre_upgrade heap c = persistence m heap c

  unfoldable pub post_upgrade : Heap → Outcome (Timer × Cells × Heap)
  post_upgrade heap = do (c, heap') ← restore m heap; done (armed 1, c, heap')
