-- ===== src/Booking/Cleanup/Tests.antt =====
-- A clean-up of the sample order.
use ticketing_system.Prelude.{◌+◌, ◌≤◌, ◌≡◌, length}
use ticketing_system.Errors.{Ensures}
use ticketing_system.Schema.{Database, OrderStatus}
use ticketing_system.Booking.Cleanup.{Stats, cleanup_expired_reservations}
use ticketing_system.Booking.Cleanup.Consistent.{cleanup_expired_reservations_stats}
use ticketing_system.Samples.{with_order_of, with_order_of-IsConsistent}

abbrev carted : Database
carted = with_order_of OrderStatus.pending

cleanup_expired_reservations_stats_example :
    Ensures
      (λ (r : Stats × Database).
        (r.0.orders_cancelled ≤ 500)
        × (length r.1.ticket_instances + r.0.tickets_released ≡ length carted.ticket_instances))
      (cleanup_expired_reservations carted 99000000000 500)
cleanup_expired_reservations_stats_example =
    cleanup_expired_reservations_stats carted 99000000000 500
      (with_order_of-IsConsistent OrderStatus.pending)
