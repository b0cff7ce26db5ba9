-- ===== src/Booking/Reserve/Outcome.antt =====
-- What a reservation that returns has found, checked and written: the proofs about
-- `reserve_ticket` start from this one reading of it.
use ticketing_system.Prelude.{
  ℕ, suc, ◌≡◌, refl, Bool, true, false, not, ◌&&◌, List, [], ◌∷◌, ◌++◌, Option, none, some, String,
  if◌then◌else◌, is_some, leb,
}
use ticketing_system.Prelude.Int.{pos}
use ticketing_system.Errors.{
  ok, or_raise, Ensures, returned, raised, Ensures-map, Ensures_ok, Ensures-on_integrity_error,
  or_raise_ok, Ensures-bind, Ensures-raise_if,
}
use ticketing_system.Table.{scalar, exists, update}
use ticketing_system.Schema.{
  Database, Order, Sector, EventSector, EventTicketType, TicketInstance, OrderStatus, Event,
  price_limit,
}
use ticketing_system.Booking.Orders.{
  is_users, is_available, take_ticket, ga_decrement, save_order, bump_total, extend_reservation,
  require_event_on_sale_status, load_ett_for_event, require_order, require_seat_in_sector,
  ensure_user_ticket_limit_not_exceeded,
}
use ticketing_system.Booking.Reserve.{
  sector_of, ticket_type_name, insert_order, same_seat, flush_ticket_instance, new_ticket_instance,
  instance_overflows, add_ticket_instance, reserve_ticket, is_awaiting, Booking, reserve,
}

-- The sectors after a ticket was placed: a general admission sector gave one.
abbrev pub after_place : Bool → List EventSector → ℕ → List EventSector
after_place true ss k = update (is_available k) take_ticket ss
after_place false ss k = ss

abbrev pub place : Bool → Database → ℕ → TicketInstance → Database
place is_ga db k t = record db {
  event_sectors = after_place is_ga db.event_sectors k;
  ticket_instances = db.ticket_instances ++ t ∷ [];
  next = record (db.next) { ticket_instance_id = suc db.next.ticket_instance_id };
}

-- What lets an instance be placed: a general admission sector has a ticket left.
abbrev pub HasRoom : Bool → Database → ℕ → Type 0
HasRoom true db k = (s : EventSector) × (scalar (is_available k) db.event_sectors ≡ some s)
HasRoom false db k = Unit

pub record Placed (is_ga : Bool) (db : Database) (k : ℕ) (t : TicketInstance) (db' : Database)
    : Type 0 where
  pub room : HasRoom is_ga db k
  pub seat_free : exists (same_seat t.event_id t.seat_id) db.ticket_instances ≡ false
  pub result : db' ≡ place is_ga db k t

abbrev appended : Database → TicketInstance → Database
appended db t = record db {
  ticket_instances = db.ticket_instances ++ t ∷ [];
  next = record (db.next) { ticket_instance_id = suc db.next.ticket_instance_id };
}

flush_ticket_instance_free :
    (db : Database) (t : TicketInstance)
    → Ensures
        (λ db'.
          (exists (same_seat t.event_id t.seat_id) db.ticket_instances ≡ false)
          × (db' ≡ appended db t))
        (flush_ticket_instance db t)
unfolding flush_ticket_instance
flush_ticket_instance_free db t =
    Ensures-raise_if (instance_overflows t) _ _
      λ _. Ensures-raise_if _ _ _ λ free. Ensures-raise_if _ _ _ λ _. returned (free, refl)

ga_decrement_room :
    (db : Database) (k : ℕ)
    → Ensures
        (λ db'.
          HasRoom true db k
          × (db' ≡ record db { event_sectors = after_place true db.event_sectors k }))
        (ga_decrement db k)
unfolding ga_decrement
ga_decrement_room db k =
    Ensures-bind (or_raise (scalar (is_available k) db.event_sectors) _) _
      λ s e. returned ((s, or_raise_ok _ _ _ e), refl)

add_ticket_instance-Placed :
    (is_ga : Bool) (db : Database) (ett : EventTicketType) (s : EventSector) (seat : Option ℕ)
    (t : TicketInstance)
    → Ensures (Placed is_ga db ett.event_sector_id t) (add_ticket_instance is_ga db ett s seat t)
unfolding add_ticket_instance
add_ticket_instance-Placed true db ett s seat t =
    Ensures-bind (ga_decrement db ett.event_sector_id) _ λ db1 h.
      let (room, same) = Ensures_ok _ (ga_decrement_room db ett.event_sector_id) h in
      rw same (
        Ensures-map _ (λ db' p. record { room = room; seat_free = p.0; result = p.1 })
          (flush_ticket_instance_free
            (record db { event_sectors = after_place true db.event_sectors ett.event_sector_id })
            t))
add_ticket_instance-Placed false db ett s none t = raised
add_ticket_instance-Placed false db ett s (some seat_id) t =
    Ensures-bind (require_seat_in_sector db seat_id s.sector_id) _ λ seat _.
      Ensures-on_integrity_error _ _ (
        Ensures-map _ (λ db' p. record { room = tt; seat_free = p.0; result = p.1 })
          (flush_ticket_instance_free db t))

abbrev pub with_order : Database → Booking → Database
with_order db b = insert_order db b.user_id b.started

abbrev pub placed_seat : Bool → Option ℕ → Option ℕ
placed_seat is_ga seat = if is_ga then none else seat

pub record Reserved (db : Database) (b : Booking) (r : (Order × TicketInstance) × Database)
    : Type 0 where
  pub event : Event
  pub ett : EventTicketType
  pub event_sector : EventSector
  pub sector : Sector
  pub order : Order
  pub name : String
  pub event_found : require_event_on_sale_status db b.event_id b.checked ≡ ok event
  pub not_awaiting :
      is_awaiting (scalar (is_users b.user_id OrderStatus.awaiting_payment) db.orders) b.now ≡ false
  pub ett_found : load_ett_for_event db b.event_ticket_type_id b.event_id ≡ ok ett
  pub sector_found : sector_of db ett ≡ ok (event_sector, sector)
  pub seat_given : not sector.is_ga && not (is_some b.seat_id) ≡ false
  pub order_found :
      scalar (is_users b.user_id OrderStatus.pending) (with_order db b).orders ≡ some order
  pub below_limit : ensure_user_ticket_limit_not_exceeded (with_order db b) b.user_id event ≡ ok tt
  pub placed :
      Placed sector.is_ga
        (with_order db b)
        ett.event_sector_id
        r.0.1
        (place sector.is_ga (with_order db b) ett.event_sector_id r.0.1)
  pub instance_made :
      r.0.1
      ≡ new_ticket_instance
          (with_order db b)
          ett
          (placed_seat sector.is_ga b.seat_id)
          b.event_id
          order.id
          name
  pub order_changed :
      r.0.0 ≡ extend_reservation (bump_total order (pos r.0.1.price_gross_snapshot)) b.now
  pub written :
      r.1 ≡ save_order (place sector.is_ga (with_order db b) ett.event_sector_id r.0.1) r.0.0

pub reserve-Reserved : (db : Database) (b : Booking) → Ensures (Reserved db b) (reserve db b)
unfolding reserve_ticket require_order
reserve-Reserved db b =
    Ensures-bind (require_event_on_sale_status db b.event_id b.checked) _ λ event event_found.
      Ensures-raise_if
        (is_awaiting (scalar (is_users b.user_id OrderStatus.awaiting_payment) db.orders) b.now) _ _
        λ not_awaiting.
          Ensures-bind (load_ett_for_event db b.event_ticket_type_id b.event_id) _ λ ett ett_found.
            Ensures-bind (sector_of db ett) _ λ sectors sector_found.
              Ensures-raise_if (sectors.1.is_ga && is_some b.seat_id) _ _ λ _.
                Ensures-raise_if (not sectors.1.is_ga && not (is_some b.seat_id)) _ _ λ seat_given.
                  Ensures-bind (require_order (with_order db b) b.user_id OrderStatus.pending _) _
                    λ order order_found.
                      Ensures-bind
                        (ensure_user_ticket_limit_not_exceeded (with_order db b) b.user_id event) _
                        λ _ below_limit.
                          Ensures-bind (ticket_type_name (with_order db b) ett) _ λ name _.
                            let seat = placed_seat sectors.1.is_ga b.seat_id in
                            let t =
                              new_ticket_instance (with_order db b) ett seat b.event_id order.id
                                name in
                            Ensures-bind
                              (add_ticket_instance sectors.1.is_ga (with_order db b) ett sectors.0
                                seat t)
                              _
                              λ db2 added.
                                let placed =
                                  Ensures_ok _
                                    (add_ticket_instance-Placed sectors.1.is_ga (with_order db b)
                                      ett sectors.0 seat t)
                                    added in
                                let order' =
                                  extend_reservation (bump_total order (pos t.price_gross_snapshot))
                                    b.now in
                                Ensures-raise_if (leb price_limit order'.total_price) _ _ λ _.
                                  rw placed.result (
                                    returned (record {
                                      event = event;
                                      ett = ett;
                                      event_sector = sectors.0;
                                      sector = sectors.1;
                                      order = order;
                                      name = name;
                                      event_found = event_found;
                                      not_awaiting = not_awaiting;
                                      ett_found = ett_found;
                                      sector_found = sector_found;
                                      seat_given = seat_given;
                                      order_found = or_raise_ok _ _ _ order_found;
                                      below_limit = below_limit;
                                      placed = record {
                                        room = placed.room;
                                        seat_free = placed.seat_free;
                                        result = refl;
                                      };
                                      instance_made = refl;
                                      order_changed = refl;
                                      written = refl;
                                    }))
