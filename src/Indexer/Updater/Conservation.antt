-- ===== src/Indexer/Updater/Conservation.antt =====
-- One transaction keeps every rune (`RuneUpdater::index_runes`): what its inputs held, its mint
-- handed out and its etching premined is afterwards in unspent outputs or burned.
use ord_indexer.Base.{
  ℕ, zero, suc, ◌+◌, ◌<◌, ◌≡◌, refl, ap, ◌∙◌, Option, none, some, [], replicate, length-replicate,
  Returns, Returns-bind, Returns-mono, u128_size, length, arith, Option-cases, inl, inr,
}
use ord_indexer.Bitcoin.{Txid, Transaction}
use ord_indexer.Runes.{RuneId, Runestone, Artifact, runestone, cenotaph, Ordinals, IsParsed}
use ord_indexer.Indexer.Balances.{Balances, amount, amount_all, credit_all, credit_all-Returns}
use ord_indexer.Indexer.Held.{held}
use ord_indexer.Indexer.Tables.{Tables, OutputTable}
use ord_indexer.Indexer.Allocation.{Allocation, apply_edicts}
use ord_indexer.Indexer.Allocation.Steps.{total}
use ord_indexer.Indexer.Allocation.Edicts.{apply_edicts-Returns}
use ord_indexer.Indexer.Settlement.{assign_rest, settle}
use ord_indexer.Indexer.Settlement.Steps.{IsFresh, no_amount, assign_rest-Returns}
use ord_indexer.Indexer.Settlement.Stored.{settle-Returns}
use ord_indexer.Indexer.Updater.{
  RuneUpdater, unallocated_of, etched, add_minted, add_premine, new_entry, create_rune_entry,
  no_outputs, apply_runestone, apply_artifact, index_runes,
}
use ord_indexer.Indexer.Updater.Inputs.{
  unallocated_of-Returns, mint_amount, minted, premined, add_minted-Returns, add_premine-Returns,
  etched_has_etching,
}

amount_all-no_outputs : (r : RuneId) (n : ℕ) → amount_all r (replicate n []) ≡ 0
unfolding amount_all amount
amount_all-no_outputs r zero = refl
amount_all-no_outputs r (suc n) = omega (arith, amount_all-no_outputs r n)

-- What an artifact makes of the rune `r`: by its mint and by its etching.
unfoldable pub made : Ordinals → RuneUpdater → ℕ → Tables → Option Artifact → RuneId → ℕ
made o u i t none r = 0
made o u i t (some (cenotaph c)) r = minted u t (o.artifact_mint (cenotaph c)) r
made o u i t (some (runestone x)) r =
    minted u t (o.artifact_mint (runestone x)) r + premined (etched o u i (runestone x)) x r

-- It does not depend on the unspent outputs.
made_of_entries :
    (o : Ordinals) (u : RuneUpdater) (i : ℕ) (t : Tables) (table : OutputTable)
    (a : Option Artifact) (r : RuneId)
    → made o u i (record t { outpoint_to_rune_balances = table }) a r ≡ made o u i t a r
unfolding made minted mint_amount
made_of_entries o u i t table none r = refl
made_of_entries o u i t table (some (cenotaph c)) r = ground arith
made_of_entries o u i t table (some (runestone x)) r = ground arith

-- A new entry leaves the balances of the outputs.
create_rune_entry-Returns :
    (o : Ordinals) (u : RuneUpdater) (i : ℕ) (txid : Txid) (a : Artifact) (t : Tables)
    → Returns
        (create_rune_entry u txid a (etched o u i a) t)
        (λ t'. t'.outpoint_to_rune_balances ≡ t.outpoint_to_rune_balances)
unfolding create_rune_entry new_entry
create_rune_entry-Returns o u i txid (cenotaph c) t =
    elim (Option-cases (etched o u i (cenotaph c))) [
      | inl nothing ↦ rw (nothing, create_rune_entry) refl
      | inr (new, found) ↦ rw (found, create_rune_entry) refl
    ]
create_rune_entry-Returns o u i txid (runestone x) t =
    elim (Option-cases (etched o u i (runestone x))) [
      | inl nothing ↦ rw (nothing, create_rune_entry) refl
      | inr (new, found) ↦
          let (e, written) = etched_has_etching o u i x new found in
          rw (found, create_rune_entry, written) refl
    ]

module _ (o : Ordinals) (u : RuneUpdater) (i : ℕ) (tx : Transaction) (txid : Txid) where
  start :
      (m : Balances) (r : RuneId)
      → total r (record { unallocated = m; allocated = no_outputs tx }) ≡ amount r m
  start m r = omega (arith, amount_all-no_outputs r (length tx.output))

  -- After the edicts: all that was unallocated and premined, on as many outputs as there are.
  abbrev Allocated : (RuneId → ℕ) → Allocation → Type 0
  Allocated f s = ((r : RuneId) → total r s ≡ f r) × (length s.allocated ≡ length tx.output)

  apply_runestone-Returns :
      (x : Runestone) (m : Balances)
      → IsParsed (length tx.output) (some (runestone x))
      → ((r : RuneId) → amount r m + premined (etched o u i (runestone x)) x r < u128_size)
      → Returns
          (apply_runestone o u i tx txid (etched o u i (runestone x)) (runestone x) m)
          (Allocated (λ r. amount r m + premined (etched o u i (runestone x)) x r))
  unfolding apply_runestone
  apply_runestone-Returns x m h fits =
      let new = etched o u i (runestone x) in
      Returns-bind (add_premine new x m) _ _ _ (add_premine-Returns o u i x m fits) (λ m' p.
        let s : Allocation = record { unallocated = m'; allocated = no_outputs tx } in
        Returns-mono (apply_edicts o new tx.output x.edicts s) _ _
          (apply_edicts-Returns o new tx.output x.edicts s h.0
            (length-replicate (length tx.output) []) (λ r. omega (arith, start m' r, p r, fits r)))
          (λ s' q. (
            λ r. omega (arith, q.0 r, start m' r, p r),
            q.1 ∙ length-replicate (length tx.output) [],
          )))

  -- After the part that the artifact guards.
  abbrev Moved : (RuneId → ℕ) → Tables → Allocation × Tables → Type 0
  Moved f t (s, t') = Allocated f s × (t'.outpoint_to_rune_balances ≡ t.outpoint_to_rune_balances)

  apply_artifact_with :
      (a : Artifact) (m : Balances) (t : Tables) (f : RuneId → ℕ)
      → ((r : RuneId) → amount r m + minted u t (o.artifact_mint a) r < u128_size)
      → ((m' : Balances)
          → ((r : RuneId) → amount r m' ≡ amount r m + minted u t (o.artifact_mint a) r)
          → Returns (apply_runestone o u i tx txid (etched o u i a) a m') (Allocated f))
      → Returns (apply_artifact o u i tx txid (some a) m t) (Moved f t)
  unfolding apply_artifact
  apply_artifact_with a m t f fits step =
      Returns-bind (add_minted (o.artifact_mint a) u m t) _ _ _
        (add_minted-Returns (o.artifact_mint a) u m t fits)
        (λ x p.
          Returns-bind (apply_runestone o u i tx txid (etched o u i a) a x.0) _ _ _ (step x.0 p.0)
            (λ s q.
              Returns-bind (create_rune_entry u txid a (etched o u i a) x.1) _ _ _
                (create_rune_entry-Returns o u i txid a x.1) (λ t'' kept. (q, kept ∙ p.1))))

  apply_artifact-Returns :
      (a : Option Artifact) (m : Balances) (t : Tables)
      → IsParsed (length tx.output) a
      → ((r : RuneId) → amount r m + made o u i t a r < u128_size)
      → Returns (apply_artifact o u i tx txid a m t) (Moved (λ r. amount r m + made o u i t a r) t)
  unfolding apply_artifact apply_runestone made
  apply_artifact-Returns none m t h fits =
      ((λ r. omega (arith, start m r), length-replicate (length tx.output) []), refl)
  apply_artifact-Returns (some (cenotaph c)) m t h fits =
      apply_artifact_with (cenotaph c) m t _ fits
        (λ m' p. (λ r. omega (arith, start m' r, p r), length-replicate (length tx.output) []))
  apply_artifact-Returns (some (runestone x)) m t h fits =
      apply_artifact_with (runestone x) m t _ (λ r. omega (arith, fits r))
        (λ m' p.
          Returns-mono (apply_runestone o u i tx txid (etched o u i (runestone x)) (runestone x) m')
            _ _ (apply_runestone-Returns x m' h (λ r. omega (arith, p r, fits r)))
            (λ s q. (λ r. omega (arith, q.0 r, p r), q.1)))

  -- A rune before and after the transaction: the difference is what the transaction made of it.
  abbrev pub Conserved : Tables → RuneUpdater × Tables → Type 0
  Conserved t (u', t') =
      (r : RuneId)
      → held r t'.outpoint_to_rune_balances + amount r u'.burned
        ≡ held r t.outpoint_to_rune_balances + amount r u.burned + made o u i t (o.decipher tx) r

  -- The indexing of a transaction does not panic, and of every rune the unspent outputs and the
  -- burned runes together hold afterwards exactly what they held before and what the transaction's
  -- mint and etching made. The conditions: the runestone is as the parser promises, no output of
  -- this transaction is in the table yet, and the runes involved fit in a `u128`.
  pub index_runes-Conserved :
      (t : Tables)
      → IsParsed (length tx.output) (o.decipher tx)
      → IsFresh txid 0 t.outpoint_to_rune_balances
      → ((r : RuneId)
          → held r t.outpoint_to_rune_balances + amount r u.burned + made o u i t (o.decipher tx) r
            < u128_size)
      → Returns (index_runes o u i tx txid t) (Conserved t)
  unfolding index_runes
  index_runes-Conserved t h fresh fits =
      let table = t.outpoint_to_rune_balances in
      let a = o.decipher tx in
      let same = λ (l : OutputTable) (r : RuneId). made_of_entries o u i t l a r in
      Returns-bind (unallocated_of tx.input [] table) _ _ _
        (unallocated_of-Returns txid tx.input [] table (λ r. omega (arith, fits r, no_amount r))
          fresh)
        (λ x p.
          let t₁ : Tables = record t { outpoint_to_rune_balances = x.1 } in
          Returns-bind (apply_artifact o u i tx txid a x.0 t₁) _ _ _
            (apply_artifact-Returns a x.0 t₁ h
              (λ r. omega (arith, same x.1 r, p.0 r, no_amount r, fits r)))
            (λ y q.
              Returns-bind (assign_rest o a tx y.0) _ _ _
                (assign_rest-Returns o a tx y.0 h q.0.1
                  (λ r. omega (arith, q.0.0 r, same x.1 r, p.0 r, no_amount r, fits r)))
                (λ z s.
                  Returns-bind (settle o txid tx.output 0 z.0 z.1 y.1.outpoint_to_rune_balances) _ _
                    _
                    (settle-Returns o txid tx.output 0 z.0 z.1 y.1.outpoint_to_rune_balances
                      (omega (arith, s.1, q.0.1))
                      (λ r. omega (arith, s.0 r, q.0.0 r, same x.1 r, p.0 r, no_amount r, fits r))
                      (rw q.1 p.1))
                    (λ w v.
                      Returns-bind (credit_all w.0 u.burned) _ _ _
                        (credit_all-Returns w.0 u.burned (λ r. omega (
                          arith,
                          ap (held r) q.1,
                          v r,
                          s.0 r,
                          q.0.0 r,
                          same x.1 r,
                          p.0 r,
                          no_amount r,
                          fits r,
                        )))
                        (λ all b r. omega (
                          arith,
                          b r,
                          ap (held r) q.1,
                          v r,
                          s.0 r,
                          q.0.0 r,
                          same x.1 r,
                          p.0 r,
                          no_amount r,
                          fits r,
                        ))))))
