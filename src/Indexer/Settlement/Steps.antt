-- ===== src/Indexer/Settlement/Steps.antt =====
-- The second half of a transaction keeps every rune: what is assigned, burned or stored adds up to
-- what was allocated and what was not. None of it panics while the runes fit in a `u128`.
use ord_indexer.Base.{
  ℕ, ◌+◌, ◌≤◌, ◌<◌, ◌≡◌, refl, ◌∙◌, false, Option, none, some, List, [], ◌∷◌, lookup, ltb, Outcome,
  done, ◌>>=◌, Returns, Returns-bind, Returns-mono, u128_size, length, arith, Bool-cases, inl, inr,
  tests, lt→ltb,
}
use ord_indexer.Bitcoin.{Txid, OutPoint-discrete, TxOut, Transaction}
use ord_indexer.Runes.{RuneId, Artifact, runestone, cenotaph, Ordinals, IsParsed, IsWithin}
use ord_indexer.Indexer.Allocation.{Allocation, credit_output}
use ord_indexer.Indexer.Allocation.Steps.{total, Fits, credit_output-Returns}
use ord_indexer.Indexer.Balances.{
  Balances, credit, credit_all, counted, counted_self, counted-zero, amount, amount_all,
  credit-Returns, credit_all-Returns,
}
use ord_indexer.Indexer.Tables.{OutputTable}
use ord_indexer.Indexer.Settlement.{
  assign_output, burn_positive, first_output, default_output, assign_default, assign_rest,
}

-- A zero amount counts for nothing, so that skipping it changes no sum.
zero_counts : (r id : RuneId) (x : ℕ) → ltb 0 x ≡ false → counted r id x ≡ 0
zero_counts r id x h = let e : x ≡ 0 = omega tests in rw e (counted-zero r id)

assign_output-Returns :
    (v : ℕ) (l : Balances) (ms : List Balances)
    → v < length ms
    → ((r : RuneId) → amount_all r ms + amount r l < u128_size)
    → Returns (assign_output v l ms) (λ ms'.
      ((r : RuneId) → amount_all r ms' ≡ amount_all r ms + amount r l) × (length ms' ≡ length ms))
unfolding assign_output amount
assign_output-Returns v [] ms h fits = (λ r. omega arith, refl)
assign_output-Returns v ((id, x) ∷ l) ms h fits = elim (Bool-cases (ltb 0 x)) [
  | inr nothing ↦ rw nothing (
      Returns-mono (assign_output v l ms) _ _
        (assign_output-Returns v l ms h (λ r. omega (arith, fits r)))
        (λ ms' p. (λ r. omega (arith, p.0 r, zero_counts r id x nothing), p.1)))
  | inl positive ↦ rw positive (
      Returns-bind (credit_output v id x ms) (λ ms'. assign_output v l ms') _ _
        (credit_output-Returns v id x ms h (omega (arith, fits id, counted_self id x)))
        (λ ms' p.
          Returns-mono (assign_output v l ms') _ _
            (assign_output-Returns v l ms' (omega (arith, p.1)) (λ r. omega (arith, p.0 r, fits r)))
            (λ ms'' q. (λ r. omega (arith, p.0 r, q.0 r), q.1 ∙ p.1))))
]

burn_positive-Returns :
    (l burned : Balances)
    → ((r : RuneId) → amount r burned + amount r l < u128_size)
    → Returns
        (burn_positive l burned)
        (λ b. (r : RuneId) → amount r b ≡ amount r burned + amount r l)
unfolding burn_positive amount
burn_positive-Returns [] burned fits = λ r. omega arith
burn_positive-Returns ((id, x) ∷ l) burned fits = elim (Bool-cases (ltb 0 x)) [
  | inr nothing ↦ rw nothing (
      Returns-mono (burn_positive l burned) _ _
        (burn_positive-Returns l burned (λ r. omega (arith, fits r)))
        (λ b p r. omega (arith, p r, zero_counts r id x nothing)))
  | inl positive ↦ rw positive (
      Returns-bind (credit id x burned) (λ b. burn_positive l b) _ _
        (credit-Returns id x burned (omega (arith, fits id, counted_self id x)))
        (λ b p.
          Returns-mono (burn_positive l b) _ _
            (burn_positive-Returns l b (λ r. omega (arith, p r, fits r)))
            (λ b' q r. omega (arith, p r, q r))))
]

-- What the settling of an allocation yields: every rune is in an output or burned.
abbrev pub Assigned : Allocation → List Balances × Balances → Type 0
Assigned s (ms, burned) =
    ((r : RuneId) → amount_all r ms + amount r burned ≡ total r s)
    × (length ms ≡ length s.allocated)

-- No output holds the rune yet.
abbrev pub IsFresh : Txid → ℕ → OutputTable → Type 0
IsFresh txid from t =
    (v : ℕ) → from ≤ v → lookup OutPoint-discrete (record { txid = txid; vout = v }) t ≡ none

pub no_amount : (r : RuneId) → amount r [] ≡ 0
unfolding amount
no_amount r = refl

module _ (o : Ordinals) where
  first_output-IsWithin :
      (i n : ℕ) (outs : List TxOut) → i + length outs ≤ n → IsWithin n (first_output o i outs)
  unfolding first_output
  first_output-IsWithin i n [] h = tt
  first_output-IsWithin i n (out ∷ outs) h =
      let rest = first_output-IsWithin (i + 1) n outs (omega arith) in
      elim (Bool-cases (o.is_op_return out.script_pubkey)) [
        | inl skip ↦ rw skip rest
        | inr found ↦ rw found (omega arith)
      ]

  default_output-Returns :
      (pointer : Option ℕ) (outs : List TxOut) (n : ℕ)
      → IsWithin n pointer
      → length outs ≤ n
      → Returns (default_output o pointer outs n) (IsWithin n)
  unfolding default_output
  default_output-Returns (some p) outs n h len = rw (lt→ltb p n h) h
  default_output-Returns none outs n h len = first_output-IsWithin 0 n outs (omega arith)

  pub assign_default-Returns :
      (pointer : Option ℕ) (tx : Transaction) (s : Allocation)
      → IsWithin (length tx.output) pointer
      → length s.allocated ≡ length tx.output
      → Fits s
      → Returns (assign_default o pointer tx s) (Assigned s)
  unfolding assign_default
  assign_default-Returns pointer tx s h len fits =
      Returns-bind (default_output o pointer tx.output (length s.allocated)) _
        (IsWithin (length s.allocated)) _
        (default_output-Returns pointer tx.output (length s.allocated) (rw len h) (omega arith))
        (λ vout.
          elim vout
            as (λ w.
              IsWithin (length s.allocated) w
              → Returns
                  (elim w as (λ x. Outcome (List Balances × Balances)) [
                    | some v ↦ do ms ← assign_output v s.unallocated s.allocated; done (ms, [])
                    | none ↦ do burned ← burn_positive s.unallocated []; done (s.allocated, burned)
                  ])
                  (Assigned s)) [
                    | some v ↦ λ inside.
                        Returns-bind (assign_output v s.unallocated s.allocated) _ _ _
                          (assign_output-Returns v s.unallocated s.allocated inside
                            (λ r. omega (arith, fits r)))
                          (λ ms p. (λ r. omega (arith, p.0 r, no_amount r), p.1))
                    | none ↦ λ _.
                        Returns-bind (burn_positive s.unallocated []) _ _ _
                          (burn_positive-Returns s.unallocated []
                            (λ r. omega (arith, fits r, no_amount r)))
                          (λ b p. (λ r. omega (arith, p r, no_amount r), refl))
                  ])

  pub assign_rest-Returns :
      (artifact : Option Artifact) (tx : Transaction) (s : Allocation)
      → IsParsed (length tx.output) artifact
      → length s.allocated ≡ length tx.output
      → Fits s
      → Returns (assign_rest o artifact tx s) (Assigned s)
  unfolding assign_rest
  assign_rest-Returns (some (cenotaph c)) tx s h len fits =
      Returns-bind (credit_all s.unallocated []) _ _ _
        (credit_all-Returns s.unallocated [] (λ r. omega (arith, fits r, no_amount r)))
        (λ b p. (λ r. omega (arith, p r, no_amount r), refl))
  assign_rest-Returns (some (runestone x)) tx s h len fits =
      assign_default-Returns x.pointer tx s h.1 len fits
  assign_rest-Returns none tx s h len fits = assign_default-Returns none tx s tt len fits
