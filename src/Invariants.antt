-- ===== src/Invariants.antt =====
-- What every request keeps true of the database, and the measures that it conserves.
mod Consistency
mod Stock
pub mod Rows
pub mod Purchases
pub use Consistency.*
pub use Stock.*
use ticketing_system.Prelude.{◌+◌, ◌≡◌, refl, sym, subst, ◌∙◌, true}
use ticketing_system.Table.{count}
use ticketing_system.Schema.{Database}
use Consistency.{rows, AreConsistent, IsConsistent}
use Stock.{SameStock, is_general, left_in, in_sector, stock}

-- What every request leaves true: the tables are consistent and the stock is what it was.
pub record Preserves (db db' : Database) : Type 0 where
  pub consistent : IsConsistent db'
  pub same_stock : SameStock db db'

pub Preserves-refl : (db : Database) → IsConsistent db → Preserves db db
Preserves-refl db c = record { consistent = c; same_stock = λ k g. (g, refl) }

pub Preserves-trans : (a b c : Database) → Preserves a b → Preserves b c → Preserves a c
Preserves-trans a b c p q = record {
  consistent = q.consistent;
  same_stock =
      λ k g. let (g', e) = p.same_stock k g in let (g'', e') = q.same_stock k g' in (g'', e' ∙ e);
}

-- A request that leaves the rows alone.
pub rows-Preserves : (db db' : Database) → rows db' ≡ rows db → IsConsistent db → Preserves db db'
rows-Preserves db db' e c = record {
  consistent = subst AreConsistent (sym e) c;
  same_stock = λ k g.
      subst
        (λ r.
          (is_general r.sectors r.event_sectors k ≡ true)
          × (left_in r.event_sectors k + count (in_sector r.event_ticket_types k) r.ticket_instances
              ≡ stock db k))
        (sym e) (g, refl);
}
