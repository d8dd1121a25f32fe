-- ===== src/Indexer/Updater/Minting.antt =====
-- What a mint does to the table of entries (`RuneUpdater::mint` of
-- ord_canister/src/index/updater/rune_updater.rs, `RuneEntry::supply` of index/entry.rs).
use ord_indexer.Base.{
  ℕ, suc, ◌+◌, ◌*◌, ◌≤◌, ◌≡◌, ◌≢◌, refl, ap, ◌∙◌, Option, insert, none, some, lookup, lookup-insert,
  arith,
}
use ord_indexer.Runes.{RuneId, RuneId-discrete, Result, ok, err}
use ord_indexer.Indexer.Lot.{Lot}
use ord_indexer.Indexer.Tables.{Tables}
use ord_indexer.Indexer.Entry.{RuneEntry, mintable, supply, max_supply, amount_of}
use ord_indexer.Indexer.Entry.Window.{IsOpen, mintable-ok_iff}
use ord_indexer.Indexer.Entry.Supply.{IsCapped, supply-issued, supply-mint, supply-le-max_supply}
use ord_indexer.Indexer.Updater.{RuneUpdater, mint}

-- The entry after one mint more.
pub record IsMinted (e e' : RuneEntry) : Type 0 where
  pub once_more : e'.mints ≡ suc e.mints
  pub terms : e'.terms ≡ e.terms
  pub raised : supply e' ≡ supply e + amount_of e.terms
  pub issued : supply e' ≡ e.premine + suc e.mints * amount_of e.terms
  pub capped : IsCapped e'
  pub within : supply e' ≤ max_supply e'

-- What a mint gives, and the tables after it.
unfoldable pub IsMint : RuneUpdater → RuneId → RuneEntry → Tables → Option Lot × Tables → Type 0
IsMint u id e t (none, t') = ¬ IsOpen e e.terms u.height × (t' ≡ t)
IsMint u id e t (some n, t') =
    IsOpen e e.terms u.height
    × (n ≡ amount_of e.terms)
    × ((e' : RuneEntry) × (lookup RuneId-discrete id t'.rune_id_to_rune_entry ≡ some e')
        × IsMinted e e')
    × ((other : RuneId)
        → other ≢ id
        → lookup RuneId-discrete other t'.rune_id_to_rune_entry
          ≡ lookup RuneId-discrete other t.rune_id_to_rune_entry)
    × (t'.outpoint_to_rune_balances ≡ t.outpoint_to_rune_balances)

-- A mint of a rune whose entry is within its cap happens exactly while the window of the entry is
-- open. It then gives the amount of the terms; the entry counts one mint more and is within its cap,
-- its supply has risen by the amount, is the premine and what all mints made, and is not above the
-- largest supply; no other entry and no balance changes. Otherwise the tables stay as they are.
pub mint-IsMint :
    (u : RuneUpdater) (id : RuneId) (t : Tables) (e : RuneEntry)
    → lookup RuneId-discrete id t.rune_id_to_rune_entry ≡ some e
    → IsCapped e
    → IsMint u id e t (mint u id t)
unfolding mint IsMint
mint-IsMint u id t e there capped = rw (mint, IsMint, there) (by_answer (mintable e u.height) refl)
  where
    by_answer :
        (r : Result ℕ)
        → mintable e u.height ≡ r
        → IsMint u id e t (elim r [
          | err _ ↦ (none, t)
          | ok amount ↦ (
            some amount,
            record t {
              rune_id_to_rune_entry =
                  insert RuneId-discrete id
                    (record e { mints = e.mints + 1 })
                    t.rune_id_to_rune_entry;
            },
          )
        ])
    by_answer (err reason) h =
        (λ can. cc (h, (mintable-ok_iff e u.height (amount_of e.terms)).1 (can, refl)), refl)
    by_answer (ok n) h =
        let (can, given) = (mintable-ok_iff e u.height n).0 h in
        let e' : RuneEntry = record e { mints = e.mints + 1 } in
        let (raised, capped') = supply-mint e u.height n capped h in
        (
          can,
          given,
          (
            e',
            ground (arith, lookup-insert RuneId-discrete id id e' t.rune_id_to_rune_entry),
            record {
              once_more = omega arith;
              terms = refl;
              raised = raised ∙ ap (λ k. supply e + k) given;
              issued =
                  supply-issued e' capped'
                  ∙ ap (λ (k : ℕ). e.premine + k * amount_of e.terms) (omega arith);
              capped = capped';
              within = supply-le-max_supply e' capped';
            },
          ),
          λ other apart.
              ground (arith, lookup-insert RuneId-discrete other id e' t.rune_id_to_rune_entry),
          refl,
        )
