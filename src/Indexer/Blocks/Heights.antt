-- ===== src/Indexer/Blocks/Heights.antt =====
-- The heights that the tables record: only the end of `index_block` adds one.
use ord_indexer.Base.{
  ◌≤◌, ◌⊎◌, inl, inr, Option-cases, ℕ, suc, ◌<◌, ◌≡◌, refl, ap, ◌>>=◌, ◌∙◌, Option, none, some,
  List, [], ◌∷◌, Dict, insert, Outcome, done, panic, unwrap, u32_of, Ensures, Ensures-bind,
  Ensures-mono, Ensures-after, Ensures-done, arith, ℕ_discrete,
}
use ord_indexer.Bitcoin.{Txid, BlockHash, Transaction}
use ord_indexer.Runes.{RuneId, Artifact, Ordinals}
use ord_indexer.Indexer.Balances.{Balances, credit, credit_all}
use ord_indexer.Indexer.Allocation.{Allocation}
use ord_indexer.Indexer.Settlement.{assign_rest, settle}
use ord_indexer.Indexer.Tables.{Tables, last_entry, highest_block, increase_height}
use ord_indexer.Indexer.Updater.{
  RuneUpdater, unallocated_of, mint, etched, add_minted, new_entry, create_rune_entry,
  apply_runestone, apply_artifact, index_runes, update_entries, update,
}
use ord_indexer.Indexer.Blocks.{Hashing, BlockData, index_txs, start_updater, index_block}

abbrev Heights : Type 0
Heights = Dict ℕ BlockHash

last_entry-cons_none :
    (h : ℕ) (c : BlockHash) (d : Heights)
    → last_entry d ≡ none
    → last_entry ((h, c) ∷ d) ≡ some (h, c)
unfolding last_entry
last_entry-cons_none h c d e = rw (e, last_entry) refl

last_entry-cons_some :
    (h : ℕ) (c : BlockHash) (d : Heights) (i : ℕ) (a : BlockHash)
    → last_entry d ≡ some (i, a)
    → (h < i × (last_entry ((h, c) ∷ d) ≡ some (i, a)))
      ⊎ (i ≤ h × (last_entry ((h, c) ∷ d) ≡ some (h, c)))
unfolding last_entry
last_entry-cons_some h c d i a e = ground arith

-- Every pair that the table's last may be has a smaller key.
abbrev IsAbove : ℕ → Option (ℕ × BlockHash) → Type 0
IsAbove k none = Unit
IsAbove k (some (h, c)) = h < k

-- A pair with a key above all others is the last one.
last_entry-insert :
    (k : ℕ) (b : BlockHash) (d : Dict ℕ BlockHash)
    → IsAbove k (last_entry d)
    → last_entry (insert ℕ_discrete k b d) ≡ some (k, b)
unfolding last_entry insert
last_entry-insert k b [] above = refl
last_entry-insert k b ((h, c) ∷ d) above = elim (Option-cases (last_entry d)) [
  | inl nothing ↦ ground (arith, last_entry-insert k b d (rw nothing tt))
  | inr ((i, a), found) ↦ elim (last_entry-cons_some h c d i a found) [
    | inl (lt, e) ↦
        let below : i < k = rw e at above in
        ground (arith, last_entry-insert k b d (rw found below))
    | inr (le, e) ↦
        let below : h < k = rw e at above in
        ground (arith, last_entry-insert k b d (rw found (omega arith)))
  ]
]

-- The tables record the same heights.
abbrev pub Keeps : Tables → Tables → Type 0
Keeps t t' = t'.height_to_block_hash ≡ t.height_to_block_hash

mint-Keeps : (u : RuneUpdater) (id : RuneId) (t : Tables) → Keeps t (mint u id t).1
unfolding mint
mint-Keeps u id t = ground arith

add_minted-Keeps :
    (asked : Option RuneId) (u : RuneUpdater) (m : Balances) (t : Tables)
    → Ensures (add_minted asked u m t) (λ (m', t'). Keeps t t')
unfolding add_minted
add_minted-Keeps none u m t = refl
add_minted-Keeps (some id) u m t = elim (Option-cases (mint u id t).0) [
  | inl refused ↦ rw (refused, add_minted) (mint-Keeps u id t)
  | inr (n, made) ↦
      rw (made, add_minted) (Ensures-after (credit id n m) _ _ (λ m'. mint-Keeps u id t))
]

create_rune_entry-Keeps :
    (u : RuneUpdater) (txid : Txid) (a : Artifact) (new : Option (RuneId × ℕ)) (t : Tables)
    → Ensures (create_rune_entry u txid a new t) (Keeps t)
unfolding create_rune_entry
create_rune_entry-Keeps u txid a none t = refl
create_rune_entry-Keeps u txid a (some (id, rune)) t =
    Ensures-after (new_entry u txid a id rune) _ _ (λ e. refl)

apply_artifact-Keeps :
    (o : Ordinals) (u : RuneUpdater) (i : ℕ) (tx : Transaction) (txid : Txid) (a : Option Artifact)
    (m : Balances) (t : Tables)
    → Ensures (apply_artifact o u i tx txid a m t) (λ (s, t'). Keeps t t')
unfolding apply_artifact
apply_artifact-Keeps o u i tx txid none m t = refl
apply_artifact-Keeps o u i tx txid (some a) m t =
    Ensures-bind (add_minted (o.artifact_mint a) u m t) _ _ _
      (add_minted-Keeps (o.artifact_mint a) u m t)
      (λ (m', t') k. Ensures-after (apply_runestone o u i tx txid (etched o u i a) a m') _ _ (λ s.
        elim_created (create_rune_entry u txid a (etched o u i a) t') s t'
          (create_rune_entry-Keeps u txid a (etched o u i a) t') k))
  where
    elim_created :
        (c : Outcome Tables) (s : Allocation) (t' : Tables)
        → Ensures c (Keeps t')
        → Keeps t t'
        → Ensures {A = Allocation × Tables} (c >>= λ t''. done (s, t'')) (λ (s', t''). Keeps t t'')
    elim_created (done t'') s t' k' k = k' ∙ k
    elim_created panic s t' k' k = tt

index_runes-Keeps :
    (o : Ordinals) (u : RuneUpdater) (i : ℕ) (tx : Transaction) (txid : Txid) (t : Tables)
    → Ensures (index_runes o u i tx txid t) (λ (u', t'). Keeps t t')
unfolding index_runes
index_runes-Keeps o u i tx txid t =
    Ensures-after (unallocated_of tx.input [] t.outpoint_to_rune_balances) _ _ (λ x.
      let t₁ : Tables = record t { outpoint_to_rune_balances = x.1 } in
      Ensures-bind (apply_artifact o u i tx txid (o.decipher tx) x.0 t₁) _ _ _
        (apply_artifact-Keeps o u i tx txid (o.decipher tx) x.0 t₁)
        (λ y k. Ensures-after (assign_rest o (o.decipher tx) tx y.0) _ _ (λ z.
          Ensures-after (settle o txid tx.output 0 z.0 z.1 y.1.outpoint_to_rune_balances) _ _
            (λ w. Ensures-after (credit_all w.0 u.burned) _ _ (λ all. k)))))

update-Keeps : (u : RuneUpdater) (t : Tables) → Ensures (update u t) (Keeps t)
unfolding update
update-Keeps u t =
    Ensures-after (update_entries u.burned t.rune_id_to_rune_entry) _ _ (λ entries. refl)

index_txs-Keeps :
    (o : Ordinals) (i : ℕ) (txs : List (Transaction × Txid)) (u : RuneUpdater) (t : Tables)
    → Ensures (index_txs o i txs u t) (λ (u', t'). Keeps t t')
unfolding index_txs
index_txs-Keeps o i [] u t = refl
index_txs-Keeps o i ((tx, txid) ∷ txs) u t = Ensures-after (unwrap (u32_of i)) _ _ (λ n.
    Ensures-bind (index_runes o u n tx txid t) _ _ _ (index_runes-Keeps o u n tx txid t)
      (λ (u', t') k.
        Ensures-mono (index_txs o (suc i) txs u' t') _ _ (index_txs-Keeps o (suc i) txs u' t')
          (λ (u'', t'') k'. k' ∙ k)))

-- What the tables record of the heights after a block of that height.
abbrev pub Records : ℕ → BlockHash → Tables → Tables → Type 0
Records height hash t t' =
    t'.height_to_block_hash ≡ insert ℕ_discrete height hash t.height_to_block_hash

index_block-Records :
    (h : Hashing) (o : Ordinals) (height : ℕ) (block : BlockData) (t : Tables)
    → Ensures (index_block h o height block t) (Records height (h.block_hash block.header) t)
unfolding index_block increase_height
index_block-Records h o height block t =
    let u = start_updater o height block.header in
    Ensures-bind (index_txs o 0 block.txdata u t) _ _ _ (index_txs-Keeps o 0 block.txdata u t)
      (λ (u', t') k.
        Ensures-bind (update u' t') _ _ _ (update-Keeps u' t')
          (λ t'' k'. ap (insert ℕ_discrete height (h.block_hash block.header)) (k' ∙ k)))

-- A block above the highest that does not panic becomes the highest.
pub index_block-highest :
    (h : Hashing) (o : Ordinals) (height top : ℕ) (tip : BlockHash) (block : BlockData)
    (t t' : Tables)
    → highest_block t ≡ done (top, tip)
    → top < height
    → index_block h o height block t ≡ done t'
    → highest_block t' ≡ done (height, h.block_hash block.header)
unfolding highest_block
index_block-highest h o height top tip block t t' e lt ran =
    let r =
      Ensures-done (index_block h o height block t) _ t' (index_block-Records h o height block t)
        ran in
    let above : IsAbove height (last_entry t.height_to_block_hash) = rw (unwrap_done _ _ e) lt in
    rw (r, last_entry-insert height (h.block_hash block.header) t.height_to_block_hash above) refl
  where
    unwrap_done : (x : Option (ℕ × BlockHash)) (p : ℕ × BlockHash) → unwrap x ≡ done p → x ≡ some p
    unwrap_done none p d = cc
    unwrap_done (some q) p d = cc
