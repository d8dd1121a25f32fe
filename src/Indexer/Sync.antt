-- ===== src/Indexer/Sync.antt =====
-- The synchronisation with a bitcoin node (`sync` of ord_canister/src/index.rs). A timer fires, one
-- round of calls and at most one block follow, and the round sets the next timer. The answers of
-- the node are arguments of a round, and so are the addresses that it reads before each of its two
-- calls. The logs, and the comparison of headers that a build option adds, are left out.
pub mod Chain
pub mod Progress
mod Tests
use Prim.Native.String.{String}
use ord_indexer.Base.{
  ite, ℕ, Option, none, some, List, [], ◌∷◌, leb, if◌then◌else◌, Outcome, done, panic, ◌>>=◌,
  unwrap, u32_of, add32,
}
use ord_indexer.Bitcoin.{BlockHash, BlockHash-discrete}
use ord_indexer.Runes.{Result, ok, err, Ordinals}
use ord_indexer.Indexer.Tables.{Tables, highest_block}
use ord_indexer.Indexer.Blocks.{Hashing, Node, BlockData, index_block, get_block}

abbrev pub required_confirmations : ℕ
required_confirmations = 1

-- The height at which the synchronisation is over.
abbrev pub last_height : ℕ
last_height = 840000

pub data Timer : Type 0 where
  idle : Timer
  -- It fires after so many seconds.
  armed : ℕ → Timer

pub record System : Type 0 where
  pub tables : Tables
  pub timer : Timer

-- A trap undoes the round, and no timer is set.
abbrev pub commit : Tables → Outcome (Timer × Tables) → System
commit t panic = record { tables = t; timer = idle }
commit t (done (timer, t')) = record { tables = t'; timer = timer }

abbrev with_height : BlockHash → ℕ → Outcome (Result (ℕ × BlockHash))
with_height hash n = do height ← unwrap (u32_of n); done (ok (height, hash))

unfoldable pub get_best_from_rpc : Node → String → Outcome (Result (ℕ × BlockHash))
get_best_from_rpc node url = elim (node.get_best_block_hash url) [
  | err e ↦ done (err e)
  | ok hash ↦ elim (node.get_block_header url hash) [
    | err e ↦ done (err e)
    | ok n ↦ with_height hash n
  ]
]

module _ (h : Hashing) (o : Ordinals) where
  -- The end of a round: a block that does not name the tip as its predecessor is not applied.
  unfoldable pub apply_block : ℕ → BlockHash → Tables → BlockData → Outcome (Timer × Tables)
  apply_block height current t block =
      ite (BlockHash-discrete block.header.prev_blockhash current)
        (do t' ← index_block h o (add32 height 1) block t; done (armed 0, t')) (done (armed 5, t))

  unfoldable pub apply_answer : ℕ → BlockHash → Tables → Result BlockData → Outcome (Timer × Tables)
  apply_answer height current t (err e) = done (armed 5, t)
  apply_answer height current t (ok block) = apply_block height current t block

  unfoldable pub follow_best :
      Node → String → ℕ → BlockHash → Tables → Result (ℕ × BlockHash) → Outcome (Timer × Tables)
  follow_best node url height current t (err e) = done (armed 5, t)
  follow_best node url height current t (ok (best, _)) =
      if leb best (add32 height required_confirmations)
      then done (armed 5, t)
      else apply_answer height current t (get_block h node url (add32 height 1))

  -- The closure that the timer runs.
  unfoldable pub round : Node → String → String → Tables → Outcome (Timer × Tables)
  round node best_url block_url t = do
    (height, current) ← highest_block t
    if leb last_height height
        then done (idle, t)
        else (get_best_from_rpc node best_url >>= λ best.
            follow_best node block_url height current t best)

  -- A timer that fires.
  unfoldable pub fire : Node → String → String → System → System
  fire node best_url block_url s = elim (s.timer) [
    | idle ↦ s
    | armed _ ↦ commit s.tables (round node best_url block_url s.tables)
  ]

  -- Rounds one after the other, each with the node's answers in it and the addresses it reads.
  unfoldable pub run : List (Node × String × String) → System → System
  run [] s = s
  run ((node, best_url, block_url) ∷ rest) s = run rest (fire node best_url block_url s)
