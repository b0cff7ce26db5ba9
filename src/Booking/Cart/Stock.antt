-- ===== src/Booking/Cart/Stock.antt =====
-- The cart's operations keep the stock of every sector that is sold by count.
use ticketing_system.Prelude.{
  ℕ, ◌+◌, ◌≡◌, refl, Bool, true, false, List, some, arith, ◌==◌, if◌then◌else◌, inl, inr,
  Bool-cases, subst, sym, ◌∙◌, ==_iff, and_left,
}
use ticketing_system.Errors.{ok, Ensures, Ensures-map, Ensures_ok, or_raise_ok}
use ticketing_system.Table.{scalar, count, delete, Unique}
use ticketing_system.Table.Laws.{scalar_holds}
use ticketing_system.Table.Keys.{scalar-key, exists-key, count-delete_key}
use ticketing_system.Schema.{Database, Sector, EventSector, EventTicketType, TicketInstance}
use ticketing_system.Booking.Orders.{ga_increment, save_order}
use ticketing_system.Booking.Orders.Stock.{left-return, is_general-return}
use ticketing_system.Booking.Reserve.Stock.{general-ga, sector_of-rows}
use ticketing_system.Booking.Cart.{ticket_type_of, return_to_sector, remove_ticket_instance}
use ticketing_system.Booking.Cart.Removal.{Removed, remove_ticket_instance-Removed}
use ticketing_system.Invariants.{IsKeyed, in_sector, left, is_general, SameStock}

sold-delete :
    (etts : List EventTicketType) (ts : List TicketInstance) (t : TicketInstance)
    (ett : EventTicketType) (k : ℕ)
    → Unique (λ e. e.id) etts
    → Unique (λ t. t.id) ts
    → scalar (λ e. e.id == t.event_ticket_type_id) etts ≡ some ett
    → scalar (λ s. s.id == t.id) ts ≡ some t
    → count (in_sector etts k) (delete (λ s. s.id == t.id) ts)
        + (if ett.event_sector_id == k then 1 else 0)
      ≡ count (in_sector etts k) ts
sold-delete etts ts t ett k ue ut e f =
    subst
      (λ (b : Bool).
        count (in_sector etts k) (delete (λ s. s.id == t.id) ts) + (if b then 1 else 0)
        ≡ count (in_sector etts k) ts)
      (exists-key (λ e. e.id) t.event_ticket_type_id (λ e. e.event_sector_id == k) etts ett ue e)
      (count-delete_key (λ t. t.id) (in_sector etts k) t.id t ts ut f)

ticket_type_of-row :
    (db : Database) (t : TicketInstance) (ett : EventTicketType)
    → Unique (λ e. e.id) db.event_ticket_types
    → ticket_type_of db t ≡ ok ett
    → scalar (λ e. e.id == t.event_ticket_type_id) db.event_ticket_types ≡ some ett
unfolding ticket_type_of
ticket_type_of-row db t ett u e =
    let found = or_raise_ok _ _ _ e in
    subst (λ j. scalar (λ e. e.id == j) db.event_ticket_types ≡ some ett)
      ((==_iff ett.id t.event_ticket_type_id).0
        (and_left _ _ (scalar_holds _ db.event_ticket_types ett found)))
      (scalar-key (λ e. e.id) _ db.event_ticket_types ett u found)

-- A sector that is sold by count gets its ticket back.
left-back :
    (is_ga : Bool) (db : Database) (j k : ℕ) (s : EventSector) (v : Sector)
    → IsKeyed db
    → scalar (λ s. s.id == j) db.event_sectors ≡ some s
    → scalar (λ v. v.id == s.sector_id) db.sectors ≡ some v
    → v.is_ga ≡ is_ga
    → is_general db.sectors db.event_sectors k ≡ true
    → left (return_to_sector is_ga db j) k ≡ left db k + (if j == k then 1 else 0)
unfolding ga_increment
left-back true db j k s v keyed es ev ga g = left-return db.sectors db.event_sectors j k 1 g
left-back false db j k s v keyed es ev ga g = elim (Bool-cases (j == k)) [
  | inl same ↦
      let same_id = (==_iff j k).0 same in
      let general = subst (λ i. is_general db.sectors db.event_sectors i ≡ true) (sym same_id) g in
      cc (general-ga db j s v keyed.sectors es ev general)
  | inr other ↦ rw other (omega arith)
]

is_general-back :
    (is_ga : Bool) (db : Database) (j k : ℕ)
    → is_general db.sectors (return_to_sector is_ga db j).event_sectors k
      ≡ is_general db.sectors db.event_sectors k
unfolding ga_increment
is_general-back true db j k = is_general-return db.sectors db.event_sectors j k 1
is_general-back false db j k = refl

return_to_sector_same :
    (is_ga : Bool) (db : Database) (j : ℕ)
    → ((return_to_sector is_ga db j).sectors ≡ db.sectors)
      × ((return_to_sector is_ga db j).event_ticket_types ≡ db.event_ticket_types)
      × ((return_to_sector is_ga db j).ticket_instances ≡ db.ticket_instances)
unfolding ga_increment
return_to_sector_same true db j = (refl, refl, refl)
return_to_sector_same false db j = (refl, refl, refl)

-- For every event sector that is sold by count, removing an item puts its ticket back.
pub remove_ticket_instance-SameStock :
    (nullifies : Bool) (db : Database) (user_id ticket_instance_id : ℕ)
    → IsKeyed db
    → Ensures
        (λ (r : Unit {0} × Database). SameStock db r.1)
        (remove_ticket_instance nullifies db user_id ticket_instance_id)
unfolding save_order
remove_ticket_instance-SameStock nullifies db user_id id keyed =
    Ensures-map _ (λ r v. kept r v) (remove_ticket_instance-Removed nullifies db user_id id)
  where
    kept : (r : Unit {0} × Database) → Removed db user_id id r → SameStock db r.1
    kept r v k g =
        let j = v.ett.event_sector_id in
        let sectors = Ensures_ok _ (sector_of-rows db v.ett) v.sector_found in
        let ett = ticket_type_of-row db v.t v.ett keyed.event_ticket_types v.ett_found in
        let t_row =
          scalar-key (λ t. t.id) _ db.ticket_instances v.t keyed.ticket_instances v.t_found in
        let same = return_to_sector_same v.sector.is_ga db j in
        rw (v.written, same.0, same.1, same.2)
          (
            is_general-back v.sector.is_ga db j k ∙ g,
            omega (
              arith,
              left-back v.sector.is_ga db j k v.event_sector v.sector keyed sectors.0 sectors.1 refl
                  g,
              sold-delete db.event_ticket_types db.ticket_instances v.t v.ett k
                  keyed.event_ticket_types keyed.ticket_instances ett t_row,
            ),
          )
