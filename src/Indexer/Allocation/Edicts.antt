-- ===== src/Indexer/Allocation/Edicts.antt =====
-- The edicts of a runestone, one after another (`for Edict { id, amount, output } in …`).
use Prim.Native.Nat.{min}
use ord_indexer.Base.{
  ℕ, ◌≤◌, ◌≡◌, refl, ◌∙◌, true, Option, some, List, [], ◌∷◌, lookup, leb, ◌==◌, if◌then◌else◌,
  Returns, Returns-bind, Returns-mono, length, All, arith, Bool-cases, Option-cases, inl, inr,
}
use ord_indexer.Bitcoin.{TxOut}
use ord_indexer.Runes.{RuneId, RuneId-discrete, Edict, Ordinals}
use ord_indexer.Indexer.Balances.{Balances, balance_of}
use ord_indexer.Indexer.Allocation.{
  Allocation, allocate, allocate_split, destinations, edict_id, apply_edict, apply_edicts,
}
use ord_indexer.Indexer.Allocation.Steps.{
  Kept, Kept-trans, Fits, allocate-Returns, allocate_split-Returns, destinations-lt,
}

leb_of_le : (a b : ℕ) → a ≤ b → leb a b ≡ true
leb_of_le a b h = ground arith

balance_of_found :
    (id : RuneId) (x : ℕ) (m : Balances)
    → lookup RuneId-discrete id m ≡ some x
    → balance_of id m ≡ x
unfolding balance_of
balance_of_found id x m h = ground arith

module _ (o : Ordinals) (new : Option (RuneId × ℕ)) (outs : List TxOut) where
  named_edict :
      (e : Edict) (s : Allocation) (id : RuneId) (balance : ℕ)
      → e.output ≤ length outs
      → length s.allocated ≡ length outs
      → Fits s
      → lookup RuneId-discrete id s.unallocated ≡ some balance
      → Returns
          (if e.output == length outs
            then allocate_split o id e.amount (destinations o 0 outs) s
            else allocate id (if e.amount == 0 then balance else min e.amount balance) e.output s)
          (Kept s)
  named_edict e s id balance h len fits found =
      let held = balance_of_found id balance s.unallocated found in
      elim (Bool-cases (e.output == length outs)) [
        | inl past ↦ rw past (
            allocate_split-Returns o id e.amount (destinations o 0 outs) s
              (rw len (destinations-lt o 0 outs (length outs) (omega arith))) fits)
        | inr one ↦
            let x = if e.amount == 0 then balance else min e.amount balance in
            rw one (
              Returns-mono (allocate id x e.output s) _ _
                (allocate-Returns id x e.output s (ground arith) (ground arith) fits) (λ s' p. p.0))
      ]

  -- An edict that names an output, or one past the last, moves runes and loses none.
  pub apply_edict-Returns :
      (e : Edict) (s : Allocation)
      → e.output ≤ length outs
      → length s.allocated ≡ length outs
      → Fits s
      → Returns (apply_edict o new outs e s) (Kept s)
  unfolding apply_edict
  apply_edict-Returns e s h len fits =
      rw (leb_of_le e.output (length outs) h) (elim (Option-cases (edict_id o new e.id)) [
        | inl unknown ↦ rw unknown (λ r. refl, refl)
        | inr (id, named) ↦ elim (Option-cases (lookup RuneId-discrete id s.unallocated)) [
          | inl absent ↦ rw (named, absent) (λ r. refl, refl)
          | inr (balance, found) ↦ rw (named, found) (named_edict e s id balance h len fits found)
        ]
      ])

  pub apply_edicts-Returns :
      (es : List Edict) (s : Allocation)
      → All (λ (e : Edict). e.output ≤ length outs) es
      → length s.allocated ≡ length outs
      → Fits s
      → Returns (apply_edicts o new outs es s) (Kept s)
  unfolding apply_edicts
  apply_edicts-Returns [] s h len fits = (λ r. refl, refl)
  apply_edicts-Returns (e ∷ es) s h len fits =
      Returns-bind (apply_edict o new outs e s) _ _ _ (apply_edict-Returns e s h.0 len fits)
        (λ s' p.
          Returns-mono (apply_edicts o new outs es s') _ _
            (apply_edicts-Returns es s' h.1 (p.1 ∙ len) (λ r. omega (arith, p.0 r, fits r)))
            (λ s'' q. Kept-trans s s' s'' p q))
