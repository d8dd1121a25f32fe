-- ===== src/Indexer/Settlement/Stored.antt =====
-- The last loop of a transaction: what the outputs hold enters the table, or is burned.
use ord_indexer.Base.{
  ℕ, ◌+◌, ◌≤◌, ◌<◌, ◌≡◌, ◌≢◌, ap, ◌∙◌, List, [], ◌∷◌, insert, lookup-insert, if_neg, Returns,
  Returns-bind, Returns-mono, u128_size, length, get_elem?_total, arith, Bool-cases, inl, inr,
}
use ord_indexer.Bitcoin.{Txid, OutPoint, OutPoint-discrete, TxOut}
use ord_indexer.Runes.{RuneId, RuneBalance, Ordinals}
use ord_indexer.Indexer.Balances.{
  Balances, credit_all, to_stored, amount, amount_all, credit_all-Returns, amount-to_stored,
}
use ord_indexer.Indexer.Held.{held, held-insert_new}
use ord_indexer.Indexer.Tables.{OutputTable}
use ord_indexer.Indexer.Settlement.{settle}
use ord_indexer.Indexer.Settlement.Steps.{IsFresh, no_amount}

vout_ne :
    (txid : Txid) (v w : ℕ)
    → v < w
    → ◌≢◌ {A = OutPoint} (record { txid = txid; vout = w }) (record { txid = txid; vout = v })
vout_ne txid v w h e = let same : w ≡ v = ap (λ (p : OutPoint). p.vout) e in omega arith

-- A write for one output leaves the later outputs without an entry.
IsFresh-insert :
    (txid : Txid) (v : ℕ) (l : List RuneBalance) (t : OutputTable)
    → IsFresh txid v t
    → IsFresh txid (v + 1) (insert OutPoint-discrete (record { txid = txid; vout = v }) l t)
IsFresh-insert txid v l t h w le =
    let p : OutPoint = record { txid = txid; vout = v } in
    let q : OutPoint = record { txid = txid; vout = w } in
    rw (lookup-insert OutPoint-discrete q p l t)
      (if_neg (OutPoint-discrete q p) (vout_ne txid v w (omega arith)) _ _ ∙ h w (omega arith))

-- The runes of the outputs and the burned ones, before and after: the table holds the difference.
abbrev pub Settled : List Balances → Balances → OutputTable → Balances × OutputTable → Type 0
Settled ms burned t (burned', t') =
    (r : RuneId) → amount r burned' + held r t' ≡ amount_all r ms + amount r burned + held r t

module _ (o : Ordinals) (txid : Txid) (outs : List TxOut) where
  pub settle-Returns :
      (vout : ℕ) (ms : List Balances) (burned : Balances) (t : OutputTable)
      → vout + length ms ≤ length outs
      → ((r : RuneId) → amount_all r ms + amount r burned < u128_size)
      → IsFresh txid vout t
      → Returns (settle o txid outs vout ms burned t) (Settled ms burned t)
  unfolding settle amount_all
  settle-Returns vout [] burned t h fits fresh = λ r. omega arith
  settle-Returns vout ([] ∷ ms) burned t h fits fresh =
      Returns-mono (settle o txid outs (vout + 1) ms burned t) _ _
        (settle-Returns (vout + 1) ms burned t (omega arith) (λ r. omega (arith, fits r))
          (λ v le. fresh v (omega arith)))
        (λ p q r. omega (arith, q r, no_amount r))
  settle-Returns vout ((e ∷ es) ∷ ms) burned t h fits fresh =
      let m : Balances = e ∷ es in
      let (out, found) = get_elem?_total outs vout (omega arith) in
      elim (Bool-cases (o.is_op_return out.script_pubkey)) [
        | inl burn ↦
            rw (found, burn)
              (Returns-bind (credit_all m burned) _ _ _
                (credit_all-Returns m burned (λ r. omega (arith, fits r)))
                (λ b p.
                  Returns-mono (settle o txid outs (vout + 1) ms b t) _ _
                    (settle-Returns (vout + 1) ms b t (omega arith)
                      (λ r. omega (arith, fits r, p r)) (λ v le. fresh v (omega arith)))
                    (λ x q r. omega (arith, q r, p r))))
        | inr keep ↦
            let p : OutPoint = record { txid = txid; vout = vout } in
            let t' = insert OutPoint-discrete p (to_stored m) t in
            rw (found, keep)
              (Returns-mono (settle o txid outs (vout + 1) ms burned t') _ _
                (settle-Returns (vout + 1) ms burned t' (omega arith) (λ r. omega (arith, fits r))
                  (IsFresh-insert txid vout (to_stored m) t fresh))
                (λ x q r. omega (
                  arith,
                  q r,
                  held-insert_new r p (to_stored m) t (fresh vout (omega arith)),
                  amount-to_stored r m,
                )))
      ]
