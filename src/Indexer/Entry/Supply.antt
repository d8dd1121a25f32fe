-- ===== src/Indexer/Entry/Supply.antt =====
-- The supply of an entry and one mint more (`RuneEntry::supply` and `max_supply`).
use ord_indexer.Base.{ℕ, ◌+◌, ◌*◌, ◌≤◌, ◌<◌, ◌≡◌, arith, u128_size, Option, none, some}
use ord_indexer.Runes.{ok, Terms}
use ord_indexer.Indexer.Entry.{RuneEntry, mintable, supply, max_supply, cap_of, amount_of}
use ord_indexer.Indexer.Entry.Window.{IsOpen, mintable-ok_iff}

-- No more mints than the cap, and a largest supply that a `u128` holds.
pub record IsCapped (e : RuneEntry) : Type 0 where
  pub capped : e.mints ≤ cap_of e.terms
  pub fits : e.premine + cap_of e.terms * amount_of e.terms < u128_size

mint_left : (e : RuneEntry) (t : Option Terms) (h : ℕ) → IsOpen e t h → e.mints < cap_of t
mint_left e none h o = absurd o
mint_left e (some t) h o = o.4

mul-le : (a b c : ℕ) → a ≤ b → a * c ≤ b * c
mul-le a b c h = grind arith

-- The supply of an entry within its cap never passes the largest supply.
pub supply-le-max_supply : (e : RuneEntry) → IsCapped e → supply e ≤ max_supply e
unfolding supply max_supply
supply-le-max_supply e v =
    omega (arith, mul-le e.mints (cap_of e.terms) (amount_of e.terms) v.capped)

-- The supply of an entry within its cap is the premine and what the mints made, without a wrap.
pub supply-issued :
    (e : RuneEntry) → IsCapped e → supply e ≡ e.premine + e.mints * amount_of e.terms
unfolding supply
supply-issued e v =
    omega (arith, mul-le e.mints (cap_of e.terms) (amount_of e.terms) v.capped, v.fits)

-- One mint more of an entry within its cap, while its window is open.
pub supply-mint :
    (e : RuneEntry) (h n : ℕ)
    → IsCapped e
    → mintable e h ≡ ok n
    → (supply (record e { mints = e.mints + 1 }) ≡ supply e + n)
      × IsCapped (record e { mints = e.mints + 1 })
unfolding supply
supply-mint e h n v m =
    let window = (mintable-ok_iff e h n).0 m in
    let left = mint_left e e.terms h window.0 in
    let room = mul-le (e.mints + 1) (cap_of e.terms) (amount_of e.terms) (omega (arith, left)) in
    let e' : n ≡ amount_of e.terms = window.1 in
    (omega (arith, room), record { capped = omega (arith, left); fits = v.fits })
