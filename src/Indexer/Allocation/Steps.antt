-- ===== src/Indexer/Allocation/Steps.antt =====
-- Every step of the allocation moves runes and neither makes nor loses any; and none of them panics
-- while the runes of the transaction fit in a `u128`.
use Prim.Native.Nat.{min}
use ord_indexer.Base.{
  ℕ, zero, suc, ◌+◌, ◌-◌, ◌*◌, ◌/◌, ◌%◌, ◌≤◌, ◌<◌, ◌≡◌, refl, ap, ◌∙◌, some, List, [], ◌∷◌, insert,
  ltb, ◌==◌, done, ◌>>=◌, Returns, Returns-bind, Returns-mono, u128_size, length, get_elem?,
  get_elem?_total, set, length-set, All, arith, Bool-cases, inl, inr, lookup-insert, tests,
}
use ord_indexer.Bitcoin.{TxOut}
use ord_indexer.Runes.{RuneId, RuneId-discrete, Ordinals}
use ord_indexer.Indexer.Lot
use ord_indexer.Indexer.Lot.{Lot}
use ord_indexer.Indexer.Balances.{
  Balances, balance_of, credit, counted, amount, amount_all, counted-add, balance_of-le,
  amount-insert, credit-Returns,
}
use ord_indexer.Indexer.Allocation.{
  Allocation, credit_output, allocate, allocate_evenly, allocate_each, destinations, allocate_split,
}

-- How much of a rune the transaction moves: what has an output and what has none.
abbrev pub total : RuneId → Allocation → ℕ
total r s = amount r s.unallocated + amount_all r s.allocated

-- A step leaves the total of every rune, and the number of outputs.
abbrev pub Kept : Allocation → Allocation → Type 0
Kept s s' = ((r : RuneId) → total r s' ≡ total r s) × (length s'.allocated ≡ length s.allocated)

abbrev pub Fits : Allocation → Type 0
Fits s = (r : RuneId) → total r s < u128_size

pub amount_all-set :
    (r : RuneId) (ms : List Balances) (i : ℕ) (m m' : Balances)
    → get_elem? ms i ≡ some m
    → amount_all r (set ms i m') + amount r m ≡ amount_all r ms + amount r m'
unfolding amount_all
amount_all-set r [] i m m' h = cc
amount_all-set r (x ∷ ms) zero m m' h = ground arith
amount_all-set r (x ∷ ms) (suc i) m m' h = omega (arith, amount_all-set r ms i m m' h)

pub amount-le-amount_all :
    (r : RuneId) (ms : List Balances) (i : ℕ) (m : Balances)
    → get_elem? ms i ≡ some m
    → amount r m ≤ amount_all r ms
unfolding amount_all
amount-le-amount_all r [] i m h = cc
amount-le-amount_all r (x ∷ ms) zero m h = ground arith
amount-le-amount_all r (x ∷ ms) (suc i) m h = omega (arith, amount-le-amount_all r ms i m h)

-- A credit to an output in range adds to that output alone.
pub credit_output-Returns :
    (i : ℕ) (id : RuneId) (x : Lot) (ms : List Balances)
    → i < length ms
    → amount_all id ms + x < u128_size
    → Returns (credit_output i id x ms) (λ ms'.
      ((r : RuneId) → amount_all r ms' ≡ amount_all r ms + counted r id x)
      × (length ms' ≡ length ms))
unfolding credit_output
credit_output-Returns i id x ms h fits =
    let (m, e) = get_elem?_total ms i h in
    rw e (
      Returns-bind (credit id x m) (λ m'. done (set ms i m')) _ _
        (credit-Returns id x m (omega (arith, amount-le-amount_all id ms i m e)))
        (λ m' p. (λ r. omega (arith, amount_all-set r ms i m m' e, p r), length-set ms i m')))

-- The balance of the rune falls by the amount.
abbrev pub Spent : RuneId → Lot → Allocation → Allocation → Type 0
Spent id x s s' = Kept s s' × (balance_of id s'.unallocated + x ≡ balance_of id s.unallocated)

balance_of-insert_self :
    (id : RuneId) (v : Lot) (m : Balances) → balance_of id (insert RuneId-discrete id v m) ≡ v
unfolding balance_of
balance_of-insert_self id v m = ground (arith, lookup-insert RuneId-discrete id id v m)

pub allocate-Returns :
    (id : RuneId) (x : Lot) (i : ℕ) (s : Allocation)
    → i < length s.allocated
    → x ≤ balance_of id s.unallocated
    → Fits s
    → Returns (allocate id x i s) (Spent id x s)
unfolding allocate
allocate-Returns id x i s h cover fits = elim (Bool-cases (ltb 0 x)) [
  | inr nothing ↦ rw nothing ((λ r. refl, refl), omega tests)
  | inl some_amount ↦
      let b = balance_of id s.unallocated in
      let small = balance_of-le id s.unallocated in
      rw (some_amount, Lot.sub-Returns b x cover)
        (Returns-bind (credit_output i id x s.allocated) _ _ _
          (credit_output-Returns i id x s.allocated h (omega (arith, fits id)))
          (λ ms p. (
            (
              λ r. omega (
                arith,
                amount-insert r id (b - x) s.unallocated,
                counted-add r id (b - x) x,
                p.0 r,
                the_sum r,
              ),
              p.1,
            ),
            omega (arith, balance_of-insert_self id (b - x) s.unallocated),
          )))
]
  where
    the_sum :
        (r : RuneId)
        → counted r id (balance_of id s.unallocated - x + x)
          ≡ counted r id (balance_of id s.unallocated)
    the_sum r = ap (counted r id) (omega arith)

pub Kept-trans : (s t u : Allocation) → Kept s t → Kept t u → Kept s u
Kept-trans s t u p q = (λ r. q.0 r ∙ p.0 r, q.1 ∙ p.1)

-- Outputs in range before a step are in range after it.
All-length :
    (ds : List ℕ) (s s' : Allocation)
    → Kept s s'
    → All (λ d. d < length s.allocated) ds
    → All (λ d. d < length s'.allocated) ds
All-length ds s s' k h = rw k.1 h

evenly_step :
    (id : RuneId) (share rem i x d : ℕ) (ds : List ℕ) (s : Allocation)
    → d < length s.allocated
    → x ≤ balance_of id s.unallocated
    → Fits s
    → ((s' : Allocation)
        → Spent id x s s'
        → Returns
            (allocate_evenly id share rem (i + 1) ds s')
            (λ s''. Kept s' s'' × (balance_of id s''.unallocated ≡ 0)))
    → Returns
        (allocate id x d s >>= λ s'. allocate_evenly id share rem (i + 1) ds s')
        (λ s''. Kept s s'' × (balance_of id s''.unallocated ≡ 0))
evenly_step id share rem i x d ds s h cover fits rest =
    Returns-bind (allocate id x d s) _ _ _ (allocate-Returns id x d s h cover fits) (λ s' p.
      Returns-mono (allocate_evenly id share rem (i + 1) ds s') _ _ (rest s' p)
        (λ s'' q. (Kept-trans s s' s'' p.0 q.0, q.1)))

-- An equal split hands out the whole balance: nothing of the rune stays without an output.
pub allocate_evenly-Returns :
    (id : RuneId) (share rem i : ℕ) (outs : List ℕ) (s : Allocation)
    → All (λ d. d < length s.allocated) outs
    → rem - i ≤ length outs
    → balance_of id s.unallocated ≡ share * length outs + (rem - i)
    → Fits s
    → Returns
        (allocate_evenly id share rem i outs s)
        (λ s'. Kept s s' × (balance_of id s'.unallocated ≡ 0))
unfolding allocate_evenly
allocate_evenly-Returns id share rem i [] s ins few all fits = ((λ r. refl, refl), omega arith)
allocate_evenly-Returns id share rem i (d ∷ ds) s ins few all fits =
    let small = balance_of-le id s.unallocated in
    let rest = λ (s' : Allocation). allocate_evenly-Returns id share rem (i + 1) ds s' in
    elim (Bool-cases (ltb i rem)) [
      | inl more ↦
          rw (more, Lot.add-Returns share 1 (omega (tests, fits id)))
            (evenly_step id share rem i (share + 1) d ds s ins.0 (omega tests) fits (λ s' p.
              rest s' (All-length ds s s' p.0 ins.1) (omega tests) (omega (tests, p.1))
                (λ r. omega (arith, p.0.0 r, fits r))))
      | inr last ↦ rw last (
          evenly_step id share rem i share d ds s ins.0 (omega tests) fits (λ s' p.
            rest s' (All-length ds s s' p.0 ins.1) (omega tests) (omega (tests, p.1))
              (λ r. omega (arith, p.0.0 r, fits r))))
    ]

allocate_each-Returns :
    (id : RuneId) (x : Lot) (outs : List ℕ) (s : Allocation)
    → All (λ d. d < length s.allocated) outs
    → Fits s
    → Returns (allocate_each id x outs s) (Kept s)
unfolding allocate_each
allocate_each-Returns id x [] s ins fits = (λ r. refl, refl)
allocate_each-Returns id x (d ∷ ds) s ins fits =
    Returns-bind (allocate id (min x (balance_of id s.unallocated)) d s) _ _ _
      (allocate-Returns id _ d s ins.0 (omega arith) fits)
      (λ s' p.
        Returns-mono (allocate_each id x ds s') _ _
          (allocate_each-Returns id x ds s' (All-length ds s s' p.0 ins.1)
            (λ r. omega (arith, p.0.0 r, fits r)))
          (λ s'' q. Kept-trans s s' s'' p.0 q))

module _ (o : Ordinals) where
  pub destinations-lt :
      (i : ℕ) (outs : List TxOut) (n : ℕ)
      → i + length outs ≤ n
      → All (λ d. d < n) (destinations o i outs)
  unfolding destinations
  destinations-lt i [] n h = tt
  destinations-lt i (out ∷ outs) n h =
      let rest = destinations-lt (i + 1) outs n (omega arith) in
      elim (Bool-cases (o.is_op_return out.script_pubkey)) [
        | inl skip ↦ rw skip rest
        | inr keep ↦ rw keep (omega arith, rest)
      ]

  pub allocate_split-Returns :
      (id : RuneId) (x : Lot) (ds : List ℕ) (s : Allocation)
      → All (λ d. d < length s.allocated) ds
      → Fits s
      → Returns (allocate_split o id x ds s) (Kept s)
  unfolding allocate_split
  allocate_split-Returns id x [] s ins fits = (λ r. refl, refl)
  allocate_split-Returns id x (d ∷ ds) s ins fits = elim (Bool-cases (x == 0)) [
    | inl zero_amount ↦
        let b = balance_of id s.unallocated in
        let n = length (d ∷ ds) in
        rw zero_amount (
          Returns-mono (allocate_evenly id (b / n) (b % n) 0 (d ∷ ds) s) _ _
            (allocate_evenly-Returns id (b / n) (b % n) 0 (d ∷ ds) s ins (omega arith) (grind arith)
              fits)
            (λ s' p. p.0))
    | inr an_amount ↦ rw an_amount (allocate_each-Returns id x (d ∷ ds) s ins fits)
  ]
