-- ===== src/Booking/Checkout.antt =====
-- `process_order`, `checkout` and `reopen_cart` of app/services/booking_service.py.
pub mod Consistent
pub mod Again
pub mod Purchases
mod Tests
use ticketing_system.Prelude.{ℕ, Bool, not, ◌&&◌, Option, none, some, ◌==◌, is_some}
use ticketing_system.Errors.{Result, ok, ◌>>=◌, ◌>>◌, raise_if, not_found, conflict, invalid_input}
use ticketing_system.Table.{scalar, exists}
use ticketing_system.Schema.{Database, Order, Payment, OrderStatus, is_open}
use ticketing_system.Booking.Orders.{
  is_users, require_order, require_not_expired, require_cart_has_items, require_no_missing_holders,
  extend_reservation, save_order,
}
use ticketing_system.Booking.Cart.{invoice_of}

abbrev pub with_status : OrderStatus → Order → Order
with_status status order = record order { status = status }

pub process_order : Database → ℕ → ℕ → Result (Order × Database)
process_order db user_id now = do
  order ← require_order db user_id OrderStatus.pending (not_found "No pending order found")
  require_not_expired order now
  require_cart_has_items db order.id
  raise_if (order.invoice_requested && not (is_some (invoice_of db order.id)))
      (invalid_input "Invoice data required")
  require_no_missing_holders db order.id
  let order' = extend_reservation (with_status OrderStatus.awaiting_payment order) now
  ok (order', save_order db order')

-- An order that awaits payment is handed back as it is.
pub checkout_awaiting : Database → ℕ → ℕ → ℕ → Option Order → Result (Order × Database)
checkout_awaiting db user_id now later (some order) = do
  require_not_expired order now
  ok (order, db)
checkout_awaiting db user_id now later none = process_order db user_id later

-- `later` is the time that `process_order` reads.
pub checkout : Database → ℕ → ℕ → ℕ → Result (Order × Database)
checkout db user_id now later =
    checkout_awaiting db user_id now later
      (scalar (is_users user_id OrderStatus.awaiting_payment) db.orders)

-- A payment of the order that is PENDING or REQUIRES_ACTION.
abbrev pub is_open_payment : ℕ → Payment → Bool
is_open_payment order_id p = p.order_id == order_id && is_open p.status

pub reopen_cart : Database → ℕ → ℕ → Result (Order × Database)
reopen_cart db user_id now = do
  order ←
      require_order db user_id OrderStatus.awaiting_payment (not_found "No order awaiting payment")
  require_not_expired order now
  raise_if (exists (is_open_payment order.id) db.payments) (conflict "Payment in progress")
  let order' = extend_reservation (with_status OrderStatus.pending order) now
  ok (order', save_order db order')
