-- ===== src/Indexer/Sync/Chain.antt =====
-- What every sequence of rounds comes to, whatever the node answers (`sync`): blocks that are linked
-- to the tip and to each other, applied in order, each at the next height.
use Prim.Native.String.{String}
use Prim.Native.Nat.{max}
use ord_indexer.Base.{
  ℕ, suc, ◌+◌, ◌≤◌, ◌<◌, ◌≡◌, refl, List, [], ◌∷◌, length, Outcome, done, panic, ◌⊎◌, leb,
  Bool-cases, inl, inr, if_pos, if_neg, ◌∙◌, ap, sym, Ensures, Ensures-run, arith, add32,
}
use ord_indexer.Bitcoin.{BlockHash, BlockHash-discrete}
use ord_indexer.Runes.{Result, ok, err, Ordinals}
use ord_indexer.Indexer.Tables.{Tables, highest_block}
use ord_indexer.Indexer.Blocks.{Hashing, Node, BlockData, index_block, get_block}
use ord_indexer.Indexer.Blocks.Heights.{index_block-highest}
use ord_indexer.Indexer.Sync.{
  last_height, Timer, idle, armed, System, get_best_from_rpc, apply_block, apply_answer,
  follow_best, commit, round, fire, run,
}

Timer-cases : (timer : Timer) → (timer ≡ idle) ⊎ ((n : ℕ) × (timer ≡ armed n))
Timer-cases idle = inl refl
Timer-cases (armed n) = inr (n, refl)

pub same_pair :
    (m n : ℕ) (a b : BlockHash)
    → ◌≡◌ {A = Outcome (ℕ × BlockHash)} (done (m, a)) (done (n, b))
    → (m ≡ n) × (a ≡ b)
same_pair m n a b e = (cc, cc)

module _ (h : Hashing) (o : Ordinals) where
  -- The contract of one block: it stands on the tip, below the last height, and is indexed at the
  -- next height.
  pub data Extends (t : Tables) (block : BlockData) (t' : Tables) : Type 0 where
    extends :
        (top : ℕ)
        → highest_block t ≡ done (top, block.header.prev_blockhash)
        → top < last_height
        → index_block h o (suc top) block t ≡ done t'
        → Extends t block t'

  -- A list of blocks, each extending what the ones before it left.
  pub data Applied : Tables → List BlockData → Tables → Type 0 where
    none_applied : {t : Tables} → Applied t [] t
    then_applied :
        {t t' t'' : Tables} {b : BlockData} {bs : List BlockData}
        → Extends t b t'
        → Applied t' bs t''
        → Applied t (b ∷ bs) t''

  -- The node answers with the block at some height.
  abbrev pub IsServed : Node → String → BlockData → Type 0
  IsServed node url block = (k : ℕ) × (get_block h node url k ≡ ok block)

  -- At most one block, and one that the node serves.
  abbrev pub Advances : Node → String → Tables → Tables → Type 0
  Advances node url t t' = (t' ≡ t) ⊎ ((b : BlockData) × Extends t b t' × IsServed node url b)

  apply_block-Advances :
      (node : Node) (url : String) (top : ℕ) (tip : BlockHash) (t : Tables) (block : BlockData)
      → highest_block t ≡ done (top, tip)
      → top < last_height
      → IsServed node url block
      → Ensures (apply_block h o top tip t block) (λ (timer, t'). Advances node url t t')
  unfolding apply_block
  apply_block-Advances node url top tip t block e lt served =
      elim (BlockHash-discrete block.header.prev_blockhash tip) [
        | no other ↦
            rw (if_neg (BlockHash-discrete block.header.prev_blockhash tip) other) (inl refl)
        | yes same ↦
            let next : add32 top 1 ≡ suc top = omega arith in
            rw (if_pos (BlockHash-discrete block.header.prev_blockhash tip) same, next)
              (Ensures-run (index_block h o (suc top) block t) _ _
                (λ t' ran. inr (block, extends top (e ∙ rw same refl) lt ran, served)))
      ]

  apply_answer-Advances :
      (node : Node) (url : String) (k top : ℕ) (tip : BlockHash) (t : Tables)
      (answer : Result BlockData)
      → highest_block t ≡ done (top, tip)
      → top < last_height
      → get_block h node url k ≡ answer
      → Ensures (apply_answer h o top tip t answer) (λ (timer, t'). Advances node url t t')
  unfolding apply_answer
  apply_answer-Advances node url k top tip t (err x) e lt from = inl refl
  apply_answer-Advances node url k top tip t (ok block) e lt from =
      apply_block-Advances node url top tip t block e lt (k, from)

  follow_best-Advances :
      (node : Node) (url : String) (top : ℕ) (tip : BlockHash) (t : Tables)
      (best : Result (ℕ × BlockHash))
      → highest_block t ≡ done (top, tip)
      → top < last_height
      → Ensures (follow_best h o node url top tip t best) (λ (timer, t'). Advances node url t t')
  unfolding follow_best
  follow_best-Advances node url top tip t (err x) e lt = inl refl
  follow_best-Advances node url top tip t (ok (best, hash)) e lt =
      elim (Bool-cases (leb best (add32 top 1))) [
        | inl near ↦ rw near (inl refl)
        | inr far ↦ rw far (apply_answer-Advances node url (add32 top 1) top tip t _ e lt refl)
      ]

  round-Advances :
      (node : Node) (best_url block_url : String) (t : Tables)
      → Ensures (round h o node best_url block_url t) (λ (timer, t'). Advances node block_url t t')
  unfolding round
  round-Advances node best_url block_url t = Ensures-run (highest_block t) _ _ (λ (top, tip) e.
      elim (Bool-cases (leb last_height top)) [
        | inl over ↦ rw over (inl refl)
        | inr below ↦ rw below (
            Ensures-run (get_best_from_rpc node best_url) _ _
              (λ best _. follow_best-Advances node block_url top tip t best e (ground arith)))
      ])

  commit-Advances :
      (node : Node) (url : String) (t : Tables) (m : Outcome (Timer × Tables))
      → Ensures m (λ (timer, t'). Advances node url t t')
      → Advances node url t (commit t m).tables
  commit-Advances node url t (done (timer, t')) k = k
  commit-Advances node url t panic k = inl refl

  pub fire-Advances :
      (node : Node) (best_url block_url : String) (s : System)
      → Advances node block_url s.tables (fire h o node best_url block_url s).tables
  unfolding fire
  fire-Advances node best_url block_url s = elim (Timer-cases s.timer) [
    | inl off ↦ rw (off, fire) (inl refl)
    | inr (n, on) ↦
        rw (on, fire)
          (commit-Advances node block_url s.tables (round h o node best_url block_url s.tables)
            (round-Advances node best_url block_url s.tables))
  ]

  Applied-Advances :
      (node : Node) (url : String) (t t' t'' : Tables) (bs : List BlockData)
      → Advances node url t t'
      → Applied t' bs t''
      → (cs : List BlockData) × Applied t cs t''
  Applied-Advances node url t t' t'' bs (inl same) a = (bs, rw same at a)
  Applied-Advances node url t t' t'' bs (inr (b, x, _)) a = (b ∷ bs, then_applied x a)

  run-Applied :
      (rounds : List (Node × String × String)) (s : System)
      → (bs : List BlockData) × Applied s.tables bs (run h o rounds s).tables
  unfolding run
  run-Applied [] s = ([], none_applied)
  run-Applied ((node, best_url, block_url) ∷ rest) s =
      let s' = fire h o node best_url block_url s in
      let (bs, a) = run-Applied rest s' in
      Applied-Advances node block_url s.tables s'.tables (run h o rest s').tables bs
        (fire-Advances node best_url block_url s) a

  -- The hash of the last block, or the tip that was there.
  abbrev pub tip_of : BlockHash → List BlockData → BlockHash
  tip_of tip [] = tip
  tip_of tip (b ∷ bs) = tip_of (h.block_hash b.header) bs

  -- Each block names the one before it.
  abbrev pub IsLinked : BlockHash → List BlockData → Type 0
  IsLinked tip [] = Unit
  IsLinked tip (b ∷ bs) = (b.header.prev_blockhash ≡ tip) × IsLinked (h.block_hash b.header) bs

  -- The blocks are linked, and the highest of them is the highest of the tables.
  abbrev pub IsChain : ℕ → BlockHash → List BlockData → Tables → Type 0
  IsChain top tip bs t =
      IsLinked tip bs
      × (highest_block t ≡ done (top + length bs, tip_of tip bs))
      × (top + length bs ≤ max top last_height)

  Applied-IsChain :
      (t t' : Tables) (bs : List BlockData) (top : ℕ) (tip : BlockHash)
      → highest_block t ≡ done (top, tip)
      → Applied t bs t'
      → IsChain top tip bs t'
  Applied-IsChain t t' [] top tip e none_applied =
      (tt, e ∙ ap (λ (n : ℕ). done (n, tip)) (omega arith), omega arith)
  Applied-IsChain t t'' (b ∷ bs) top tip e (then_applied (extends top' at_tip lt ran) a) =
      let (same_top, same_tip) = same_pair _ _ _ _ (sym at_tip ∙ e) in
      let up =
        index_block-highest h o (suc top') top' b.header.prev_blockhash b t _ at_tip (omega arith)
          ran in
      let (linked, highest, le) =
        Applied-IsChain _ t'' bs (suc top') (h.block_hash b.header) up a in
      (
        (same_tip, linked),
        highest ∙ ap (λ (n : ℕ). done (n, tip_of (h.block_hash b.header) bs)) (omega arith),
        omega arith,
      )

  -- Whatever the nodes answer, and in however many rounds, the tables come from what they were by
  -- applying blocks in order: each stands on the tip that the one before it left, is indexed at the
  -- next height, and none is indexed above the last height.
  pub run-IsChain :
      (rounds : List (Node × String × String)) (s : System) (top : ℕ) (tip : BlockHash)
      → highest_block s.tables ≡ done (top, tip)
      → (bs : List BlockData) × Applied s.tables bs (run h o rounds s).tables
        × IsChain top tip bs (run h o rounds s).tables
  run-IsChain rounds s top tip e =
      let (bs, a) = run-Applied rounds s in
      (bs, a, Applied-IsChain s.tables (run h o rounds s).tables bs top tip e a)
