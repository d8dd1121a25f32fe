-- ===== src/Indexer/Sync/Tests.antt =====
-- Two blocks on a tip: a node that serves them is followed, one that has left the tip is not.
use Prim.Native.String.{String}
use ord_indexer.Base.{
  ◌≢◌, ℕ, ◌≡◌, refl, true, false, none, List, [], ◌∷◌, ◌==◌, if◌then◌else◌, replicate, arith,
  lookup, insert,
}
use ord_indexer.Bitcoin.{BlockHash, BlockHash-discrete}
use ord_indexer.Runes.{OrdError, Result, ok, err, Ordinals}
use ord_indexer.Indexer.Tables.{Tables, no_tables, last_entry, highest_block, increase_height}
use ord_indexer.Indexer.Updater.{update_entries, update}
use ord_indexer.Indexer.Blocks.{
  Block, Hashing, Node, BlockData, index_txs, from_block, index_block, get_block,
}
use ord_indexer.Indexer.Sync.{
  armed, System, get_best_from_rpc, apply_block, apply_answer, follow_best, round, fire, run,
}
use ord_indexer.Indexer.Sync.Chain.{
  Applied, extends, none_applied, then_applied, IsChain, run-IsChain,
}
use ord_indexer.Indexer.Sync.Progress.{run_unchanged, run_catches_up}

program : Unit {0}
unfolding last_entry highest_block increase_height update_entries update index_txs from_block
    index_block get_block get_best_from_rpc apply_block apply_answer follow_best round fire run
    lookup insert BlockHash-discrete
program = tt

-- A header is hashed to its merkle root here, and every root is right.
abbrev hashing : Hashing
hashing = record {
  txid = λ tx. [];
  block_hash = λ header. header.merkle_root;
  check_merkle_root = λ block. true;
}

abbrev ordinals : Ordinals
ordinals = record {
  decipher = λ _. none;
  artifact_mint = λ _. none;
  is_op_return = λ _. false;
  minimum_at_height = λ _. 0;
  is_reserved = λ _. false;
  reserved = λ block tx. 0;
}

abbrev block_on : BlockHash → BlockHash → Block
block_on prev hash = record {
  header = record {
    version = 2;
    prev_blockhash = prev;
    merkle_root = hash;
    time = 7;
    bits = 0;
    nonce = 0;
  };
  txdata = [];
}

abbrev data_on : BlockHash → BlockHash → BlockData
data_on prev hash = record { header = (block_on prev hash).header; txdata = [] }

abbrev tip : BlockHash
tip = 1 ∷ []

abbrev first : BlockHash
first = 2 ∷ []

abbrev second : BlockHash
second = 3 ∷ []

abbrev third : BlockHash
third = 4 ∷ []

abbrev hash_at : ℕ → Result BlockHash
hash_at height =
    if height == 6 then ok first else (if height == 7 then ok second else err OrdError.overflow)

abbrev serve : BlockHash → BlockHash → Result Block
serve prev [] = err OrdError.overflow
serve prev (b ∷ bs) = if b == 2 then ok (block_on prev first) else ok (block_on first second)

-- A node of eight blocks; the block at height 6 stands on the given one.
abbrev node_on : BlockHash → Node
node_on prev = record {
  get_best_block_hash = λ url. ok third;
  get_block_header = λ url hash. ok 8;
  get_block_hash = λ url height. hash_at height;
  get_block = λ url hash. serve prev hash;
}

abbrev before : Tables
before = record no_tables { height_to_block_hash = (5, tip) ∷ [] }

abbrev after_second : Tables
after_second = record no_tables { height_to_block_hash = (5, tip) ∷ (6, first) ∷ (7, second) ∷ [] }

abbrev two_rounds : List (Node × String × String)
two_rounds = replicate 2 (node_on tip, "", "")

abbrev system : System
system = record { tables = before; timer = armed 1 }

run_two : run hashing ordinals two_rounds system ≡ record { tables = after_second; timer = armed 0 }
unfolding program
run_two = refl

both-Applied :
    Applied hashing ordinals before (data_on tip first ∷ data_on first second ∷ []) after_second
unfolding program
both-Applied =
    then_applied (extends 5 refl (omega arith) refl)
      (then_applied (extends 6 refl (omega arith) refl) none_applied)

run-IsChain_example :
    (bs : List BlockData) × Applied hashing ordinals before bs
      (run hashing ordinals two_rounds system).tables
    × IsChain hashing ordinals 5 tip bs (run hashing ordinals two_rounds system).tables
unfolding program
run-IsChain_example = run-IsChain hashing ordinals two_rounds system 5 tip refl

run_catches_up_example :
    (m : ℕ) × (run hashing ordinals two_rounds system
      ≡ record { tables = after_second; timer = armed m })
unfolding program
run_catches_up_example =
    run_catches_up hashing ordinals (node_on tip) "" ""
      (data_on tip first ∷ data_on first second ∷ []) before after_second 5 8 1 tip third refl
      both-Applied refl (omega arith) (refl, (refl, tt))

-- A node whose only block stands on another.
abbrev other_node : Node
other_node = record {
  get_best_block_hash = λ url. ok third;
  get_block_header = λ url hash. ok 8;
  get_block_hash = λ url height. ok first;
  get_block = λ url hash. ok (block_on third first);
}

other_left :
    (k : ℕ) (b : BlockData)
    → get_block hashing other_node "" k ≡ ok b
    → b.header.prev_blockhash ≢ tip
unfolding get_block from_block
other_left k b e p = let same : b.header.prev_blockhash ≡ third = ground arith in cc

run_unchanged_example : (run hashing ordinals ((other_node, "", "") ∷ []) system).tables ≡ before
unfolding highest_block last_entry
run_unchanged_example =
    run_unchanged hashing ordinals tip 5 ((other_node, "", "") ∷ []) system refl (other_left, tt)
