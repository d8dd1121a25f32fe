-- ===== src/Indexer/Sync/Progress.antt =====
-- How the synchronisation gets on (`sync`): with a node that serves a chain on the tip it applies
-- all of it, and with nodes whose chains have left the tip it applies nothing, however long it runs.
use Prim.Native.String.{String}
use ord_indexer.Base.{
  ℕ, suc, ◌+◌, ◌<◌, ◌≡◌, ◌≢◌, refl, sym, ap, ◌∙◌, List, [], ◌∷◌, length, replicate, All, false,
  done, inl, inr, if_pos, leb, arith, add32,
}
use ord_indexer.Bitcoin.{BlockHash, BlockHash-discrete}
use ord_indexer.Runes.{ok, Ordinals}
use ord_indexer.Indexer.Tables.{Tables, highest_block}
use ord_indexer.Indexer.Blocks.{Hashing, Node, BlockData, index_block, get_block}
use ord_indexer.Indexer.Blocks.Heights.{index_block-highest}
use ord_indexer.Indexer.Sync.{
  last_height, armed, System, get_best_from_rpc, apply_block, apply_answer, follow_best, round,
  fire, run,
}
use ord_indexer.Indexer.Sync.Chain.{
  extends, Applied, none_applied, then_applied, fire-Advances, same_pair,
}

module _ (h : Hashing) (o : Ordinals) where
  -- None of the blocks that the node serves stands on the tip.
  abbrev pub HasLeft : BlockHash → Node × String × String → Type 0
  HasLeft tip (node, _, url) =
      (k : ℕ) (b : BlockData) → get_block h node url k ≡ ok b → b.header.prev_blockhash ≢ tip

  fire_unchanged :
      (tip : BlockHash) (top : ℕ) (node : Node) (best_url url : String) (s : System)
      → highest_block s.tables ≡ done (top, tip)
      → HasLeft tip (node, best_url, url)
      → (fire h o node best_url url s).tables ≡ s.tables
  fire_unchanged tip top node best_url url s e left = elim (fire-Advances h o node best_url url s) [
    | inl same ↦ same
    | inr (b, extends top' at_tip lt ran, (k, served)) ↦
        let (_, same_tip) = same_pair _ _ _ _ (sym at_tip ∙ e) in absurd (left k b served same_tip)
  ]

  -- When the nodes of all rounds have left the tip, in a reorganisation that drops it, the tables
  -- stay as they are through all of them.
  pub run_unchanged :
      (tip : BlockHash) (top : ℕ) (rounds : List (Node × String × String)) (s : System)
      → highest_block s.tables ≡ done (top, tip)
      → All (HasLeft tip) rounds
      → (run h o rounds s).tables ≡ s.tables
  unfolding run
  run_unchanged tip top [] s e left = refl
  run_unchanged tip top ((node, best_url, url) ∷ rest) s e (now, later) =
      let s' = fire h o node best_url url s in
      let same = fire_unchanged tip top node best_url url s e now in
      run_unchanged tip top rest s' (ap highest_block same ∙ e) later ∙ same

  -- The node serves these blocks, from the height on.
  abbrev pub Serves : Node → String → ℕ → List BlockData → Type 0
  Serves node url k [] = Unit
  Serves node url k (b ∷ bs) = (get_block h node url k ≡ ok b) × Serves node url (suc k) bs

  round-Extends :
      (node : Node) (best_url url : String) (top best : ℕ) (hash : BlockHash) (b : BlockData)
      (t t' : Tables)
      → get_best_from_rpc node best_url ≡ done (ok (best, hash))
      → suc top < best
      → get_block h node url (suc top) ≡ ok b
      → highest_block t ≡ done (top, b.header.prev_blockhash)
      → top < last_height
      → index_block h o (suc top) b t ≡ done t'
      → round h o node best_url url t ≡ done (armed 0, t')
  unfolding round follow_best apply_answer apply_block
  round-Extends node best_url url top best hash b t t' said more served at_tip lt ran =
      let below : leb last_height top ≡ false = ground arith in
      let next : add32 top 1 ≡ suc top = omega arith in
      let far : leb best (suc top) ≡ false = ground arith in
      rw (at_tip, below, said, follow_best, next, far, served, apply_answer, apply_block)
        (rw
          (
            if_pos (BlockHash-discrete b.header.prev_blockhash b.header.prev_blockhash) refl,
            next,
            ran,
          )
          refl)

  fire-Extends :
      (node : Node) (best_url url : String) (top best n : ℕ) (hash : BlockHash) (b : BlockData)
      (t t' : Tables)
      → get_best_from_rpc node best_url ≡ done (ok (best, hash))
      → suc top < best
      → get_block h node url (suc top) ≡ ok b
      → highest_block t ≡ done (top, b.header.prev_blockhash)
      → top < last_height
      → index_block h o (suc top) b t ≡ done t'
      → fire h o node best_url url (record { tables = t; timer = armed n })
        ≡ record { tables = t'; timer = armed 0 }
  unfolding fire
  fire-Extends node best_url url top best n hash b t t' said more served at_tip lt ran =
      rw (round-Extends node best_url url top best hash b t t' said more served at_tip lt ran) refl

  -- A node that says its best block is above a chain on the tip, and that serves the blocks of the
  -- chain, is followed: one round for each block applies them all, provided each of them can be
  -- indexed on the one before it, and the timer is still set.
  pub run_catches_up :
      (node : Node) (best_url url : String) (bs : List BlockData) (t t' : Tables) (top best n : ℕ)
      (tip hash : BlockHash)
      → highest_block t ≡ done (top, tip)
      → Applied h o t bs t'
      → get_best_from_rpc node best_url ≡ done (ok (best, hash))
      → top + length bs < best
      → Serves node url (suc top) bs
      → (m : ℕ) × (run h o
            (replicate (length bs) (node, best_url, url))
            (record { tables = t; timer = armed n })
          ≡ record { tables = t'; timer = armed m })
  unfolding run
  run_catches_up node best_url url [] t t' top best n tip hash e none_applied said more serves =
      (n, refl)
  run_catches_up node best_url url (b ∷ bs) t t'' top best n tip hash e
        (then_applied (extends top' at_tip lt ran) a) said more (now, later) =
      let (same_top, same_tip) = same_pair _ _ _ _ (sym at_tip ∙ e) in
      let up =
        index_block-highest h o (suc top') top' b.header.prev_blockhash b t _ at_tip (omega arith)
          ran in
      let now' : get_block h node url (suc top') ≡ ok b = rw same_top now in
      let later' : Serves node url (suc (suc top')) bs = rw same_top later in
      let (m, rest) =
        run_catches_up node best_url url bs _ t'' (suc top') best 0 (h.block_hash b.header) hash up
          a said (omega arith) later' in
      let first =
        fire-Extends node best_url url top' best n hash b t _ said (omega arith) now' at_tip lt
          ran in
      (m, ap (run h o (replicate (length bs) (node, best_url, url))) first ∙ rest)
