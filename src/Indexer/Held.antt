-- ===== src/Indexer/Held.antt =====
-- How much of a rune the unspent outputs hold: the sum over the table of stored balances.
use ord_indexer.Base.{ℕ, ◌+◌, ◌≡◌, refl, none, some, List, [], ◌∷◌, lookup, insert, erase, arith}
use ord_indexer.Bitcoin.{OutPoint, OutPoint-discrete}
use ord_indexer.Runes.{RuneId, RuneBalance}
use ord_indexer.Indexer.Balances.{stored_amount}
use ord_indexer.Indexer.Tables.{OutputTable}

unfoldable pub held : RuneId → OutputTable → ℕ
held r [] = 0
held r ((p, l) ∷ t) = stored_amount r l + held r t

pub held-insert_new :
    (r : RuneId) (p : OutPoint) (l : List RuneBalance) (t : OutputTable)
    → lookup OutPoint-discrete p t ≡ none
    → held r (insert OutPoint-discrete p l t) ≡ held r t + stored_amount r l
unfolding held insert lookup
held-insert_new r p l [] h = omega arith
held-insert_new r p l ((q, k) ∷ t) h = ground (arith, held-insert_new r p l t)

pub held-erase :
    (r : RuneId) (p : OutPoint) (l : List RuneBalance) (t : OutputTable)
    → lookup OutPoint-discrete p t ≡ some l
    → held r (erase OutPoint-discrete p t) + stored_amount r l ≡ held r t
unfolding held erase lookup
held-erase r p l [] h = cc
held-erase r p l ((q, k) ∷ t) h = ground (arith, held-erase r p l t)

-- What is absent stays absent when another output is spent, or the same one.
pub lookup-erase_absent :
    (p q : OutPoint) (t : OutputTable)
    → lookup OutPoint-discrete p t ≡ none
    → lookup OutPoint-discrete p (erase OutPoint-discrete q t) ≡ none
unfolding erase lookup
lookup-erase_absent p q [] h = refl
lookup-erase_absent p q ((x, k) ∷ t) h = ground (arith, lookup-erase_absent p q t)
