-- ===== src/Booking/Orders.antt =====
-- The helpers of app/services/booking_service.py, up to `_ga_increment`.
pub mod Stock
pub mod Money
pub mod Save
mod Tests
use ticketing_system.Prelude.{
  ℕ, ◌+◌, ◌-◌, ◌*◌, ◌/◌, max, Bool, false, not, ◌&&◌, Option, none, some, ltb, ◌==◌,
}
use ticketing_system.Prelude.Int.{ℤ, pos, pos_part, ◌+ℤ◌}
use mathlib.Core.Option
use ticketing_system.Errors.{
  Result, ok, ◌>>=◌, ◌>>◌, raise_if, or_raise, Error, not_found, conflict, invalid_input,
  unprocessable,
}
use ticketing_system.Table.{scalar, exists, count, update}
use ticketing_system.Schema.{
  Database, Order, Event, EventSector, EventTicketType, Seat, OrderStatus, EventStatus, is_status,
  is_counted, is_event_status,
}

-- In microseconds, as Python's `timedelta` counts.
abbrev pub minute : ℕ
minute = 60000000

abbrev pub reservation_minutes : ℕ
reservation_minutes = 15

unfoldable pub extend_reservation : Order → ℕ → Order
extend_reservation order now = record order {
  reserved_until = max order.reserved_until (now + reservation_minutes * minute);
}

-- `pos_part` is the new price if that is above 0, and 0 otherwise.
unfoldable pub bump_total : Order → ℤ → Order
bump_total order delta =
    let new_price = pos order.total_price +ℤ delta in
    record order { total_price = pos_part new_price }

-- Cents times hundredths, quantized to cents with ROUND_HALF_UP.
unfoldable pub gross_price : ℕ → ℕ → ℕ
gross_price price_net vat_rate = (price_net * vat_rate + 50) / 100

-- `now` is the time at which the check runs.
unfoldable pub require_event_on_sale_status : Database → ℕ → ℕ → Result Event
require_event_on_sale_status db event_id now = do
  event ←
      or_raise
        (scalar (λ e. e.id == event_id && is_event_status e.status EventStatus.on_sale) db.events)
        (not_found "Event not found or sale not started")
  raise_if (ltb now event.sales_start) (conflict "Sales not started yet")
  raise_if (ltb event.sales_end now) (conflict "Sales ended")
  ok event

unfoldable pub load_ett_for_event : Database → ℕ → ℕ → Result EventTicketType
load_ett_for_event db ett_id event_id =
    or_raise
      (scalar
        (λ t.
          t.id == ett_id
          && exists (λ s. s.id == t.event_sector_id && s.event_id == event_id) db.event_sectors)
        db.event_ticket_types)
      (unprocessable "Ticket type does not match event")

-- Order.user_id == user_id, Order.status == status_
abbrev pub is_users : ℕ → OrderStatus → Order → Bool
is_users user_id status order = order.user_id == user_id && is_status order.status status

-- `FOR UPDATE` has no effect here: requests run one after the other.
unfoldable pub require_order : Database → ℕ → OrderStatus → Error → Result Order
require_order db user_id status missing =
    or_raise (scalar (is_users user_id status) db.orders) missing

unfoldable pub require_seat_in_sector : Database → ℕ → ℕ → Result Seat
require_seat_in_sector db seat_id sector_id = do
  seat ← or_raise (scalar (λ s. s.id == seat_id) db.seats) (not_found "Seat not found")
  raise_if (not (seat.sector_id == sector_id)) (invalid_input "Seat does not match ticket type")
  ok seat

-- How many tickets of the event the user holds in orders that are not cancelled.
unfoldable pub current_count : Database → ℕ → ℕ → ℕ
current_count db user_id event_id =
    count
      (λ t.
        t.event_id == event_id
        && exists (λ o. o.id == t.order_id && (o.user_id == user_id && is_counted o.status))
            db.orders)
      db.ticket_instances

unfoldable pub ensure_user_ticket_limit_not_exceeded : Database → ℕ → Event → Result (Unit {0})
ensure_user_ticket_limit_not_exceeded db user_id event = elim event.max_tickets_per_user [
  | none ↦ ok tt
  | some limit ↦
      raise_if (ltb limit (current_count db user_id event.id + 1))
        (invalid_input "Ticket limit for this event exceeded")
]

unfoldable pub require_cart_has_items : Database → ℕ → Result (Unit {0})
require_cart_has_items db order_id =
    raise_if (not (exists (λ t. t.order_id == order_id) db.ticket_instances))
      (invalid_input "Cart is empty")

-- An instance of the order, at an event that wants holder data, without a holder.
unfoldable pub is_missing_holder : Database → ℕ → Bool
is_missing_holder db order_id =
    exists
      (λ t.
        t.order_id == order_id
        && (exists (λ e. e.id == t.event_id && e.holder_data_required) db.events
            && not (exists (λ h. h.ticket_instance_id == t.id) db.ticket_holders)))
      db.ticket_instances

unfoldable pub require_no_missing_holders : Database → ℕ → Result (Unit {0})
require_no_missing_holders db order_id =
    raise_if (is_missing_holder db order_id) (invalid_input "Missing holder data")

unfoldable pub require_not_expired : Order → ℕ → Result (Unit {0})
require_not_expired order now =
    raise_if (ltb order.reserved_until now) (conflict "Reservation expired")

-- EventSector.tickets_left > 0, which a NULL fails
abbrev pub has_tickets : Option ℕ → Bool
has_tickets none = false
has_tickets (some n) = ltb 0 n

abbrev pub is_available : ℕ → EventSector → Bool
is_available event_sector_id s = s.id == event_sector_id && has_tickets s.tickets_left

-- tickets_left=EventSector.tickets_left - 1
abbrev pub take_ticket : EventSector → EventSector
take_ticket s = record s { tickets_left = Option.map (λ n. n - 1) s.tickets_left }

-- tickets_left=EventSector.tickets_left + int(count)
abbrev pub return_tickets : ℕ → EventSector → EventSector
return_tickets n s = record s { tickets_left = Option.map (λ m. m + n) s.tickets_left }

-- The row that RETURNING gives back decides whether a ticket was left.
unfoldable pub ga_decrement : Database → ℕ → Result Database
ga_decrement db event_sector_id = do
  left ←
      or_raise (scalar (is_available event_sector_id) db.event_sectors) (conflict "No tickets left")
  ok (record db {
    event_sectors = update (is_available event_sector_id) take_ticket db.event_sectors;
  })

unfoldable pub ga_increment : Database → ℕ → ℕ → Database
ga_increment db event_sector_id count = record db {
  event_sectors = update (λ s. s.id == event_sector_id) (return_tickets count) db.event_sectors;
}

-- What the session writes back for an order whose fields were assigned.
unfoldable pub save_order : Database → Order → Database
save_order db order = record db { orders = update (λ o. o.id == order.id) (λ _. order) db.orders }
