-- ===== src/Booking/Reserve/Stock.antt =====
-- A reservation loses no ticket of a general admission sector and makes none up.
use ticketing_system.Prelude.{
  ℕ, ◌+◌, ◌≡◌, refl, Bool, true, false, List, [], ◌∷◌, ◌++◌, some, arith, ◌==◌, if◌then◌else◌, inl,
  inr, Bool-cases, subst, sym, ◌∙◌, and_right, ==_iff,
}
use ticketing_system.Errors.{
  ok, Ensures, Ensures-map, returned, Ensures-bind, or_raise_ok, or_raise, Ensures_ok,
}
use ticketing_system.Table.{scalar, count, Unique}
use ticketing_system.Table.Laws.{count-append}
use ticketing_system.Table.Keys.{scalar-key, exists-key}
use ticketing_system.Schema.{Database, Order, Sector, EventSector, EventTicketType, TicketInstance}
use ticketing_system.Booking.Orders.{save_order, load_ett_for_event}
use ticketing_system.Booking.Orders.Stock.{left-take, is_general-take}
use ticketing_system.Booking.Reserve.{sector_of, Booking, reserve}
use ticketing_system.Booking.Reserve.Consistent.{inserted, inserted-IsKeyed, insert_order_keeps}
use ticketing_system.Booking.Reserve.Outcome.{
  after_place, place, HasRoom, Reserved, reserve-Reserved,
}
use ticketing_system.Invariants.{IsKeyed, in_sector, left_in, is_general, counts_tickets, SameStock}

-- One more instance in the sector of its ticket type.
sold-append :
    (etts : List EventTicketType) (ts : List TicketInstance) (t : TicketInstance)
    (ett : EventTicketType) (k : ℕ)
    → Unique (λ e. e.id) etts
    → scalar (λ e. e.id == t.event_ticket_type_id) etts ≡ some ett
    → count (in_sector etts k) (ts ++ t ∷ [])
      ≡ count (in_sector etts k) ts + (if ett.event_sector_id == k then 1 else 0)
unfolding count
sold-append etts ts t ett k u e = rw (count-append (in_sector etts k) ts (t ∷ [])) (
    rw (exists-key (λ e. e.id) t.event_ticket_type_id (λ e. e.event_sector_id == k) etts ett u e)
      (omega arith))

-- A sector that is sold by count is general admission.
pub general-ga :
    (db : Database) (k : ℕ) (s : EventSector) (v : Sector)
    → Unique (λ v. v.id) db.sectors
    → scalar (λ s. s.id == k) db.event_sectors ≡ some s
    → scalar (λ v. v.id == s.sector_id) db.sectors ≡ some v
    → is_general db.sectors db.event_sectors k ≡ true
    → v.is_ga ≡ true
general-ga db k s v u es ev g =
    let counted = subst (λ o. counts_tickets db.sectors o ≡ true) es g in
    sym (exists-key (λ v. v.id) s.sector_id (λ v. v.is_ga) db.sectors v u ev)
    ∙ and_right _ _ counted

-- A sector that is sold by count gave a ticket if the instance lies in it, and none if not.
left-place :
    (is_ga : Bool) (db : Database) (j k : ℕ) (s : EventSector) (v : Sector)
    → IsKeyed db
    → HasRoom is_ga db j
    → scalar (λ s. s.id == j) db.event_sectors ≡ some s
    → scalar (λ v. v.id == s.sector_id) db.sectors ≡ some v
    → v.is_ga ≡ is_ga
    → is_general db.sectors db.event_sectors k ≡ true
    → left_in (after_place is_ga db.event_sectors j) k + (if j == k then 1 else 0)
      ≡ left_in db.event_sectors k
left-place true db j k s v keyed (r, e) es ev ga g =
    left-take db.event_sectors j k r keyed.event_sectors e
left-place false db j k s v keyed room es ev ga g = elim (Bool-cases (j == k)) [
  | inl same ↦
      let same_id = (==_iff j k).0 same in
      let general = subst (λ i. is_general db.sectors db.event_sectors i ≡ true) (sym same_id) g in
      cc (general-ga db j s v keyed.sectors es ev general)
  | inr other ↦ rw other (omega arith)
]

is_general-place :
    (is_ga : Bool) (vs : List Sector) (ss : List EventSector) (j k : ℕ)
    → is_general vs (after_place is_ga ss j) k ≡ is_general vs ss k
is_general-place true vs ss j k = is_general-take vs ss j k
is_general-place false vs ss j k = refl

-- What a reservation has looked up, in terms of the keys.
pub sector_of-rows :
    (db : Database) (ett : EventTicketType)
    → Ensures
        (λ (r : EventSector × Sector).
          (scalar (λ s. s.id == ett.event_sector_id) db.event_sectors ≡ some r.0)
          × (scalar (λ v. v.id == r.0.sector_id) db.sectors ≡ some r.1))
        (sector_of db ett)
unfolding sector_of
sector_of-rows db ett =
    Ensures-bind (or_raise (scalar (λ s. s.id == ett.event_sector_id) db.event_sectors) _) _ λ s e.
      Ensures-bind (or_raise (scalar (λ v. v.id == s.sector_id) db.sectors) _) _
        λ v f. returned (or_raise_ok _ _ _ e, or_raise_ok _ _ _ f)

ett_row :
    (db : Database) (ett_id event_id : ℕ) (ett : EventTicketType)
    → Unique (λ e. e.id) db.event_ticket_types
    → load_ett_for_event db ett_id event_id ≡ ok ett
    → scalar (λ e. e.id == ett.id) db.event_ticket_types ≡ some ett
unfolding load_ett_for_event
ett_row db ett_id event_id ett u e = scalar-key (λ e. e.id) _ _ ett u (or_raise_ok _ _ _ e)

-- The instance takes its ticket from the sector that it counts in.
place-SameStock :
    (is_ga : Bool) (db : Database) (ett : EventTicketType) (s : EventSector) (v : Sector)
    (t : TicketInstance)
    → IsKeyed db
    → HasRoom is_ga db ett.event_sector_id
    → scalar (λ e. e.id == t.event_ticket_type_id) db.event_ticket_types ≡ some ett
    → scalar (λ s. s.id == ett.event_sector_id) db.event_sectors ≡ some s
    → scalar (λ v. v.id == s.sector_id) db.sectors ≡ some v
    → v.is_ga ≡ is_ga
    → SameStock db (place is_ga db ett.event_sector_id t)
place-SameStock is_ga db ett s v t keyed room found es ev ga k g = (
  rw (is_general-place is_ga db.sectors db.event_sectors ett.event_sector_id k) g,
  omega (
    arith,
    left-place is_ga db ett.event_sector_id k s v keyed room es ev ga g,
    sold-append db.event_ticket_types db.ticket_instances t ett k keyed.event_ticket_types found,
  ),
)

-- For every event sector that is sold by count, the tickets left and the tickets in orders are
-- together as many after a reservation as before, whichever sector was booked.
pub reserve_ticket-SameStock :
    (db : Database) (b : Booking)
    → IsKeyed db
    → Ensures (λ (r : (Order × TicketInstance) × Database). SameStock db r.1) (reserve db b)
unfolding save_order
reserve_ticket-SameStock db b keyed = Ensures-map _ (λ r v. kept r v) (reserve-Reserved db b)
  where
    kept : (r : (Order × TicketInstance) × Database) → Reserved db b r → SameStock db r.1
    kept r v =
        let rows = Ensures_ok _ (sector_of-rows db v.ett) v.sector_found in
        let ett = ett_row db _ _ v.ett keyed.event_ticket_types v.ett_found in
        let same_id : r.0.1.event_ticket_type_id ≡ v.ett.id = rw v.instance_made refl in
        rw v.written (
          insert_order_keeps
            (λ d.
              HasRoom v.sector.is_ga d v.ett.event_sector_id
              → SameStock db (place v.sector.is_ga d v.ett.event_sector_id r.0.1))
            db b.user_id b.started
            (λ room.
              place-SameStock v.sector.is_ga db v.ett v.event_sector v.sector r.0.1 keyed room
                (rw same_id ett) rows.0 rows.1 refl)
            (λ room.
              place-SameStock v.sector.is_ga (inserted db b.user_id b.started) v.ett v.event_sector
                v.sector r.0.1 (inserted-IsKeyed db b.user_id b.started keyed) room (rw same_id ett)
                rows.0 rows.1 refl)
            v.placed.room)
