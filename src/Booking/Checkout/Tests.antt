-- ===== src/Booking/Checkout/Tests.antt =====
-- A checkout of the sample order.
use ticketing_system.Prelude.{◌≡◌, refl, arith}
use ticketing_system.Errors.{ok}
use ticketing_system.Table.{scalar, exists, update}
use ticketing_system.Schema.{Order, Database, OrderStatus}
use ticketing_system.Booking.Orders.{
  require_order, require_not_expired, require_cart_has_items, is_missing_holder,
  require_no_missing_holders, extend_reservation, save_order,
}
use ticketing_system.Booking.Checkout.{process_order, checkout_awaiting, checkout}
use ticketing_system.Booking.Checkout.Again.{checkout_again}
use ticketing_system.Samples.{with_order_of, order_of, with_order_of-IsConsistent}

abbrev checked_out : Order × Database
checked_out = (order_of OrderStatus.awaiting_payment, with_order_of OrderStatus.awaiting_payment)

checkout_again_example :
    checkout (with_order_of OrderStatus.awaiting_payment) 7 300 301 ≡ ok checked_out
unfolding checkout checkout_awaiting process_order require_order require_not_expired
    require_cart_has_items is_missing_holder require_no_missing_holders extend_reservation
    save_order scalar exists update
checkout_again_example =
    checkout_again (with_order_of OrderStatus.pending) 7 202 202 300 301 checked_out
      (with_order_of-IsConsistent OrderStatus.pending).keyed refl (omega arith)
