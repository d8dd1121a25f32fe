-- ===== src/Indexer/Updater/Inputs.antt =====
-- What enters a transaction: the runes of its inputs, of its mint and of its etching.
use ord_indexer.Base.{
  ℕ, ◌+◌, ◌<◌, ◌≡◌, refl, Option, none, some, List, [], ◌∷◌, lookup, erase, Returns, Returns-bind,
  Returns-mono, u128_size, arith, Option-cases, inl, inr,
}
use ord_indexer.Bitcoin.{Txid, OutPoint-discrete, TxIn}
use ord_indexer.Runes.{
  RuneId, RuneId-discrete, RuneBalance, Runestone, Etching, runestone, ok, err, Ordinals,
}
use ord_indexer.Indexer.Entry.{mintable, or_default}
use ord_indexer.Indexer.Balances.{
  Balances, credit, counted, counted_self, counted-zero, amount, stored_amount, credit-Returns,
}
use ord_indexer.Indexer.Held.{held, held-erase, lookup-erase_absent}
use ord_indexer.Indexer.Tables.{Tables, OutputTable}
use ord_indexer.Indexer.Settlement.Steps.{IsFresh}
use ord_indexer.Indexer.Updater.{
  RuneUpdater, credit_stored, unallocated_of, mint, etched, add_minted, add_premine,
}

credit_stored-Returns :
    (l : List RuneBalance) (m : Balances)
    → ((r : RuneId) → amount r m + stored_amount r l < u128_size)
    → Returns
        (credit_stored l m)
        (λ m'. (r : RuneId) → amount r m' ≡ amount r m + stored_amount r l)
unfolding credit_stored stored_amount
credit_stored-Returns [] m fits = λ r. omega arith
credit_stored-Returns (b ∷ l) m fits =
    Returns-bind (credit b.id b.balance m) (λ m'. credit_stored l m') _ _
      (credit-Returns b.id b.balance m (omega (arith, fits b.id, counted_self b.id b.balance)))
      (λ m' p.
        Returns-mono (credit_stored l m') _ _
          (credit_stored-Returns l m' (λ r. omega (arith, p r, fits r)))
          (λ m'' q r. omega (arith, p r, q r)))

-- The inputs' runes leave the table, and no other runes do.
abbrev Taken : Txid → Balances → OutputTable → Balances × OutputTable → Type 0
Taken txid m t (m', t') =
    ((r : RuneId) → amount r m' + held r t' ≡ amount r m + held r t) × IsFresh txid 0 t'

pub unallocated_of-Returns :
    (txid : Txid) (inputs : List TxIn) (m : Balances) (t : OutputTable)
    → ((r : RuneId) → amount r m + held r t < u128_size)
    → IsFresh txid 0 t
    → Returns (unallocated_of inputs m t) (Taken txid m t)
unfolding unallocated_of
unallocated_of-Returns txid [] m t fits fresh = (λ r. refl, fresh)
unallocated_of-Returns txid (i ∷ inputs) m t fits fresh =
    let p = i.previous_output in
    let t' = erase OutPoint-discrete p t in
    elim (Option-cases (lookup OutPoint-discrete p t)) [
      | inl empty ↦ rw (empty, unallocated_of) (unallocated_of-Returns txid inputs m t fits fresh)
      | inr (l, found) ↦
          rw (found, unallocated_of)
            (Returns-bind (credit_stored l m) (λ m'. unallocated_of inputs m' t') _ _
              (credit_stored-Returns l m (λ r. omega (arith, fits r, held-erase r p l t found)))
              (λ m' q.
                Returns-mono (unallocated_of inputs m' t') _ _
                  (unallocated_of-Returns txid inputs m' t'
                    (λ r. omega (arith, fits r, q r, held-erase r p l t found))
                    (λ v le. lookup-erase_absent _ p t (fresh v le)))
                  (λ x s. (λ r. omega (arith, s.0 r, q r, held-erase r p l t found), s.1))))
    ]

-- What a mint of the rune hands out at this height.
unfoldable pub mint_amount : RuneUpdater → Tables → RuneId → ℕ
mint_amount u t id = elim (lookup RuneId-discrete id t.rune_id_to_rune_entry) [
  | none ↦ 0
  | some entry ↦ elim (mintable entry u.height) [ err _ ↦ 0 | ok n ↦ n ]
]

-- How much of the rune `r` the mint of an artifact makes.
unfoldable pub minted : RuneUpdater → Tables → Option RuneId → RuneId → ℕ
minted u t none r = 0
minted u t (some id) r = counted r id (mint_amount u t id)

unfoldable pub premine_of : Runestone → ℕ
premine_of x = elim (x.etching) [ none ↦ 0 | some e ↦ or_default e.premine ]

-- How much of the rune `r` an etching makes.
unfoldable pub premined : Option (RuneId × ℕ) → Runestone → RuneId → ℕ
premined none x r = 0
premined (some (id, _)) x r = counted r id (premine_of x)

mint_lem :
    (u : RuneUpdater) (id : RuneId) (t : Tables)
    → (or_default (mint u id t).0 ≡ mint_amount u t id)
      × ((mint u id t).1.outpoint_to_rune_balances ≡ t.outpoint_to_rune_balances)
unfolding mint mint_amount
mint_lem u id t = ground arith

pub add_minted-Returns :
    (asked : Option RuneId) (u : RuneUpdater) (m : Balances) (t : Tables)
    → ((r : RuneId) → amount r m + minted u t asked r < u128_size)
    → Returns (add_minted asked u m t) (λ (m', t').
      ((r : RuneId) → amount r m' ≡ amount r m + minted u t asked r)
      × (t'.outpoint_to_rune_balances ≡ t.outpoint_to_rune_balances))
unfolding add_minted minted
add_minted-Returns none u m t fits = (λ r. omega arith, refl)
add_minted-Returns (some id) u m t fits =
    let (same, kept) = mint_lem u id t in
    elim (Option-cases (mint u id t).0) [
      | inl refused ↦
          let none_made : mint_amount u t id ≡ 0 = ground arith in
          rw (refused, add_minted) ((λ r. rw (none_made) (omega (arith, counted-zero r id))), kept)
      | inr (n, made) ↦
          let some_made : mint_amount u t id ≡ n = ground arith in
          rw (made, add_minted)
            (Returns-bind (credit id n m) _ _ _
              (credit-Returns id n m (omega (arith, fits id, counted_self id (mint_amount u t id))))
              (λ m' p. (λ r. rw some_made (p r), kept)))
    ]

-- What an artifact etches is written in it.
pub etched_has_etching :
    (o : Ordinals) (u : RuneUpdater) (i : ℕ) (x : Runestone) (new : RuneId × ℕ)
    → etched o u i (runestone x) ≡ some new
    → (e : Etching) × (x.etching ≡ some e)
unfolding etched
etched_has_etching o u i x new h = elim (Option-cases (x.etching)) [
  | inl nothing ↦ absurd (no_rune nothing)
  | inr found ↦ found
]
  where
    no_rune : x.etching ≡ none → ⊥
    no_rune e = ground arith

premine_of-some :
    (x : Runestone) (e : Etching) → x.etching ≡ some e → premine_of x ≡ or_default e.premine
unfolding premine_of
premine_of-some x e h = ground arith

premine_step :
    (new : RuneId × ℕ) (x : Runestone) (e : Etching) (m : Balances)
    → x.etching ≡ some e
    → ((r : RuneId) → amount r m + premined (some new) x r < u128_size)
    → Returns
        (add_premine (some new) x m)
        (λ m'. (r : RuneId) → amount r m' ≡ amount r m + premined (some new) x r)
unfolding add_premine premined
premine_step (id, name) x e m written fits =
    let the_premine : premine_of x ≡ or_default e.premine = premine_of-some x e written in
    rw (the_premine, written, add_premine)
      (credit-Returns id (or_default e.premine) m
        (omega (arith, the_premine, fits id, counted_self id (premine_of x))))

pub add_premine-Returns :
    (o : Ordinals) (u : RuneUpdater) (i : ℕ) (x : Runestone) (m : Balances)
    → ((r : RuneId) → amount r m + premined (etched o u i (runestone x)) x r < u128_size)
    → Returns
        (add_premine (etched o u i (runestone x)) x m)
        (λ m'. (r : RuneId) → amount r m' ≡ amount r m + premined (etched o u i (runestone x)) x r)
unfolding add_premine premined
add_premine-Returns o u i x m fits = elim (Option-cases (etched o u i (runestone x))) [
  | inl nothing ↦ rw (nothing, add_premine, premined) (λ r. omega arith)
  | inr (new, found) ↦
      let (e, written) = etched_has_etching o u i x new found in
      rw found (premine_step new x e m written (rw found at fits))
]
