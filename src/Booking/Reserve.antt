-- ===== src/Booking/Reserve.antt =====
-- `reserve_ticket` of app/services/booking_service.py.
pub mod Outcome
pub mod Consistent
pub mod Stock
pub mod Stuck
pub mod Purchases
pub mod Success
pub mod Limit
mod Tests
use ticketing_system.Prelude.{
  ℕ, suc, ◌+◌, ◌*◌, ◌||◌, Bool, true, false, not, ◌&&◌, ◌++◌, [], ◌∷◌, Option, none, some, String,
  ltb, leb, ◌==◌, equals, is_some, if◌then◌else◌,
}
use ticketing_system.Prelude.Int.{pos}
use ticketing_system.Errors.{
  Result, ok, err, ◌>>=◌, ◌>>◌, raise_if, or_raise, on_integrity_error, not_found, conflict,
  invalid_input, integrity_error, data_error, attribute_error,
}
use ticketing_system.Table.{scalar, exists}
use ticketing_system.Schema.{
  Database, Order, Sector, EventSector, EventTicketType, TicketInstance, OrderStatus, is_active,
  price_limit, rate_limit,
}
use ticketing_system.Booking.Orders.{
  minute, gross_price, require_event_on_sale_status, load_ett_for_event, is_users, require_order,
  require_seat_in_sector, ensure_user_ticket_limit_not_exceeded, ga_decrement, save_order,
  bump_total, extend_reservation,
}

-- event_ticket_type.event_sector.sector
pub sector_of : Database → EventTicketType → Result (EventSector × Sector)
sector_of db ett = do
  event_sector ←
      or_raise (scalar (λ s. s.id == ett.event_sector_id) db.event_sectors) attribute_error
  sector ← or_raise (scalar (λ s. s.id == event_sector.sector_id) db.sectors) attribute_error
  ok (event_sector, sector)

-- event_ticket_type.ticket_type.name
pub ticket_type_name : Database → EventTicketType → Result String
ticket_type_name db ett = do
  ticket_type ← or_raise (scalar (λ t. t.id == ett.ticket_type_id) db.ticket_types) attribute_error
  ok ticket_type.name

abbrev pub has_active_order : ℕ → Order → Bool
has_active_order user_id o = o.user_id == user_id && is_active o.status

-- A row of `Order` with the column defaults; `started` is the database's `now()`.
abbrev pub new_order : ℕ → ℕ → ℕ → Order
new_order id user_id started = record {
  id = id;
  user_id = user_id;
  total_price = 0;
  reserved_until = started + 20 * minute;
  status = OrderStatus.pending;
  invoice_requested = false;
}

-- insert(Order).on_conflict_do_nothing on the unique index uq_orders_user_active
pub insert_order : Database → ℕ → ℕ → Database
insert_order db user_id started =
    if exists (has_active_order user_id) db.orders then db else record db {
      orders = db.orders ++ new_order db.next.order_id user_id started ∷ [];
      next = record (db.next) { order_id = suc db.next.order_id };
    }

-- Two rows conflict on uq_event_seat if both columns are equal; NULL seats never are.
abbrev pub same_seat : ℕ → Option ℕ → TicketInstance → Bool
same_seat event_id none t = false
same_seat event_id (some seat) t = t.event_id == event_id && equals t.seat_id seat

-- The Numeric columns of an instance cannot hold the value.
abbrev pub instance_overflows : TicketInstance → Bool
instance_overflows t =
    leb price_limit t.price_net_snapshot
    || leb price_limit t.price_gross_snapshot
    || leb rate_limit t.vat_rate_snapshot

-- db.flush() of a new TicketInstance: the columns' ranges, uq_event_seat and chk_vat_rate.
pub flush_ticket_instance : Database → TicketInstance → Result Database
flush_ticket_instance db t = do
  raise_if (instance_overflows t) data_error
  raise_if (exists (same_seat t.event_id t.seat_id) db.ticket_instances) integrity_error
  raise_if (ltb t.vat_rate_snapshot 100) integrity_error
  ok (record db {
    ticket_instances = db.ticket_instances ++ t ∷ [];
    next = record (db.next) { ticket_instance_id = suc db.next.ticket_instance_id };
  })

-- The key comes from the table's sequence.
abbrev pub new_ticket_instance :
    Database → EventTicketType → Option ℕ → ℕ → ℕ → String → TicketInstance
new_ticket_instance db ett seat_id event_id order_id name = record {
  id = db.next.ticket_instance_id;
  event_ticket_type_id = ett.id;
  seat_id = seat_id;
  event_id = event_id;
  order_id = order_id;
  price_net_snapshot = ett.price_net;
  vat_rate_snapshot = ett.vat_rate;
  price_gross_snapshot = gross_price ett.price_net ett.vat_rate;
  ticket_type_name_snapshot = name;
}

-- Part 5: the instance goes into the database if the sector has room or the seat is free.
pub add_ticket_instance :
    Bool → Database → EventTicketType → EventSector → Option ℕ → TicketInstance → Result Database
add_ticket_instance true db ett event_sector seat_id t = do
  db ← ga_decrement db ett.event_sector_id
  flush_ticket_instance db t
add_ticket_instance false db ett event_sector none t = err attribute_error
add_ticket_instance false db ett event_sector (some seat_id) t = do
  seat ← require_seat_in_sector db seat_id event_sector.sector_id
  on_integrity_error (flush_ticket_instance db t) (conflict "Selected seat is not available")

-- awaiting_order and awaiting_order.reserved_until >= now
abbrev pub is_awaiting : Option Order → ℕ → Bool
is_awaiting none now = false
is_awaiting (some order) now = leb now order.reserved_until

-- `started` is the start of the transaction, `checked` the time of the event check, `now` the time
-- read after it.
pub reserve_ticket :
    Database → ℕ → ℕ → ℕ → Option ℕ → ℕ → ℕ → ℕ → Result ((Order × TicketInstance) × Database)
reserve_ticket db user_id event_id event_ticket_type_id seat_id started checked now = do
  event ← require_event_on_sale_status db event_id checked
  raise_if (is_awaiting (scalar (is_users user_id OrderStatus.awaiting_payment) db.orders) now)
      (conflict "Order awaiting payment")
  ett ← load_ett_for_event db event_ticket_type_id event_id
  sectors ← sector_of db ett
  raise_if (sectors.1.is_ga && is_some seat_id) (invalid_input "GA sector shouldn't include seat")
  raise_if (not sectors.1.is_ga && not (is_some seat_id))
      (invalid_input "Seat is required for this sector")
  let db1 = insert_order db user_id started
  order ← require_order db1 user_id OrderStatus.pending (not_found "No pending order found")
  ensure_user_ticket_limit_not_exceeded db1 user_id event
  name ← ticket_type_name db1 ett
  let placed = if sectors.1.is_ga then none else seat_id
  let t = new_ticket_instance db1 ett placed event_id order.id name
  db2 ← add_ticket_instance sectors.1.is_ga db1 ett sectors.0 placed t
  let order' = extend_reservation (bump_total order (pos t.price_gross_snapshot)) now
  raise_if (leb price_limit order'.total_price) data_error
  ok ((order', t), save_order db2 order')

-- The arguments of a reservation, but for the database.
pub record Booking : Type 0 where
  pub user_id : ℕ
  pub event_id : ℕ
  pub event_ticket_type_id : ℕ
  pub seat_id : Option ℕ
  pub started : ℕ
  pub checked : ℕ
  pub now : ℕ

abbrev pub reserve : Database → Booking → Result ((Order × TicketInstance) × Database)
reserve db b =
    reserve_ticket db b.user_id b.event_id b.event_ticket_type_id b.seat_id b.started b.checked
      b.now
