-- ===== src/Indexer/Balances.antt =====
-- Maps from runes to amounts (`HashMap<RuneId, Lot>`), and how much of a rune they hold.
use ord_indexer.Base.{
  ℕ, ◌+◌, ◌≤◌, ◌<◌, ◌≡◌, ◌≢◌, refl, none, some, List, [], ◌∷◌, Dict, lookup, insert, ite, arith,
  Outcome, done, ◌>>=◌, Returns, Returns-bind, Returns-mono, u128_size, if_pos, if_neg,
}
use ord_indexer.Runes.{RuneId, RuneId-discrete, RuneBalance}
use ord_indexer.Indexer.Lot
use ord_indexer.Indexer.Lot.{Lot}

abbrev pub Balances : Type 0
Balances = Dict RuneId Lot

-- `*m.entry(id).or_default()`, read
unfoldable pub balance_of : RuneId → Balances → Lot
balance_of id m = elim (lookup RuneId-discrete id m) [ none ↦ 0 | some v ↦ v ]

-- `*m.entry(id).or_default() += x`
unfoldable pub credit : RuneId → Lot → Balances → Outcome Balances
unfolding balance_of
credit id x m = do v ← Lot.add (balance_of id m) x; done (insert RuneId-discrete id v m)

-- A loop over pairs that adds each of them to a map.
unfoldable pub credit_all : Balances → Balances → Outcome Balances
unfolding credit
credit_all [] m = done m
credit_all ((id, x) ∷ l) m = do m' ← credit id x m; credit_all l m'

-- What an amount of the rune `id` counts towards the rune `r`.
unfoldable pub counted : RuneId → RuneId → ℕ → ℕ
counted r id x = ite (RuneId-discrete r id) x 0

-- How much of a rune a map holds.
unfoldable pub amount : RuneId → Balances → ℕ
amount r [] = 0
amount r ((id, x) ∷ m) = counted r id x + amount r m

-- How much of a rune a list of maps holds.
unfoldable pub amount_all : RuneId → List Balances → ℕ
amount_all r [] = 0
amount_all r (m ∷ ms) = amount r m + amount_all r ms

-- How much of a rune a stored list holds.
unfoldable pub stored_amount : RuneId → List RuneBalance → ℕ
stored_amount r [] = 0
stored_amount r (b ∷ l) = counted r b.id b.balance + stored_amount r l

-- The pairs of a map, as they are stored.
unfoldable pub to_stored : Balances → List RuneBalance
to_stored [] = []
to_stored ((id, x) ∷ m) = record { id = id; balance = x } ∷ to_stored m

pub counted_self : (r : RuneId) (x : ℕ) → counted r r x ≡ x
unfolding counted
counted_self r x = if_pos (RuneId-discrete r r) refl x 0

pub counted_ne : (r id : RuneId) (x : ℕ) → r ≢ id → counted r id x ≡ 0
unfolding counted
counted_ne r id x h = if_neg (RuneId-discrete r id) h x 0

pub counted-le : (r id : RuneId) (x : ℕ) → counted r id x ≤ x
unfolding counted
counted-le r id x = ground arith

pub counted-add : (r id : RuneId) (x y : ℕ) → counted r id (x + y) ≡ counted r id x + counted r id y
unfolding counted
counted-add r id x y = ground arith

pub counted-zero : (r id : RuneId) → counted r id 0 ≡ 0
unfolding counted
counted-zero r id = ground arith

pub balance_of-le : (id : RuneId) (m : Balances) → balance_of id m ≤ amount id m
unfolding balance_of amount counted lookup
balance_of-le id [] = omega arith
balance_of-le id ((j, x) ∷ m) = ground (arith, balance_of-le id m)

-- A write changes the amount of its own rune only, by the difference.
pub amount-insert :
    (r id : RuneId) (v : Lot) (m : Balances)
    → amount r (insert RuneId-discrete id v m) + counted r id (balance_of id m)
      ≡ amount r m + counted r id v
unfolding amount insert balance_of counted lookup
amount-insert r id v [] = ground arith
amount-insert r id v ((j, x) ∷ m) = ground (arith, amount-insert r id v m)

-- An addition succeeds where the sum is in range, and adds just that.
pub credit-Returns :
    (id : RuneId) (x : Lot) (m : Balances)
    → amount id m + x < u128_size
    → Returns (credit id x m) (λ m'. (r : RuneId) → amount r m' ≡ amount r m + counted r id x)
unfolding credit
credit-Returns id x m h =
    let small = balance_of-le id m in
    rw (Lot.add-Returns (balance_of id m) x (omega arith)) (λ r.
      omega
        (arith, amount-insert r id (balance_of id m + x) m, counted-add r id (balance_of id m) x))

-- A loop of additions adds what its list holds.
pub credit_all-Returns :
    (l m : Balances)
    → ((r : RuneId) → amount r m + amount r l < u128_size)
    → Returns (credit_all l m) (λ m'. (r : RuneId) → amount r m' ≡ amount r m + amount r l)
unfolding credit_all amount
credit_all-Returns [] m fits = λ r. omega arith
credit_all-Returns ((id, x) ∷ l) m fits =
    Returns-bind (credit id x m) (λ m'. credit_all l m') _ _
      (credit-Returns id x m (omega (arith, fits id, counted_self id x)))
      (λ m' p.
        Returns-mono (credit_all l m') _ _
          (credit_all-Returns l m' (λ r. omega (arith, p r, fits r)))
          (λ m'' q r. omega (arith, p r, q r)))

pub amount-to_stored : (r : RuneId) (m : Balances) → stored_amount r (to_stored m) ≡ amount r m
unfolding stored_amount to_stored amount
amount-to_stored r [] = refl
amount-to_stored r ((id, x) ∷ m) = omega (arith, amount-to_stored r m)
