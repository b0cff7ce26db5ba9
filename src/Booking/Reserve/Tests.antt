-- ===== src/Booking/Reserve/Tests.antt =====
-- Reservations on the sample databases.
use ticketing_system.Prelude.{◌≤◌, ◌≡◌, refl, false}
use ticketing_system.Errors.{is_ok, Ensures}
use ticketing_system.Table.{scalar}
use ticketing_system.Schema.{Database, Order, TicketInstance, EventTicketType, OrderStatus}
use ticketing_system.Booking.Orders.{require_event_on_sale_status, current_count}
use ticketing_system.Booking.Reserve.{new_order, reserve}
use ticketing_system.Booking.Reserve.Stuck.{reserve_ticket_blocked}
use ticketing_system.Booking.Reserve.Limit.{reserve_ticket_within_limit}
use ticketing_system.Samples.{
  concert, start, start-IsConsistent, with_order_of, order_of, floor_booking,
  with_order_of-IsConsistent,
}

reserve_ticket_blocked_example :
    is_ok (reserve (with_order_of OrderStatus.awaiting_payment) (floor_booking 7)) ≡ false
unfolding scalar
reserve_ticket_blocked_example =
    reserve_ticket_blocked (with_order_of OrderStatus.awaiting_payment) (floor_booking 7)
      (order_of OrderStatus.awaiting_payment)
      (with_order_of-IsConsistent OrderStatus.awaiting_payment) refl

-- The first reservation of user 7 makes the cart.
abbrev cart : Order
cart = new_order 1 7 200

abbrev floor_type : EventTicketType
floor_type = record {
  id = 8;
  event_sector_id = 5;
  ticket_type_id = 1;
  price_net = 10000;
  vat_rate = 123;
}

reserve_ticket_within_limit_example :
    Ensures
      (λ (r : (Order × TicketInstance) × Database). current_count r.1 7 1 ≤ 2)
      (reserve start (floor_booking 7))
unfolding require_event_on_sale_status scalar
reserve_ticket_within_limit_example =
    reserve_ticket_within_limit start (floor_booking 7) concert 2 start-IsConsistent refl refl
