-- ===== src/Payments/Tests.antt =====
-- Payments of the sample order.
use ticketing_system.Prelude.{◌≡◌, refl, true, some, arith, Option}
use ticketing_system.Errors.{ok}
use ticketing_system.Table.{scalar, exists, count}
use ticketing_system.Schema.{Database, Payment, OrderStatus}
use ticketing_system.Payments.{
  RedirectUrl, redirect_url, require_awaiting_order, require_payment_method,
  require_active_payment_method, flush_payment, create_payment, start_active, start_keyed,
  start_payment, require_payment_for_user, require_order_of_payment, finalize_payment,
}
use ticketing_system.Payments.Replay.{start_payment_replays}
use ticketing_system.Payments.Delivery.{Delivered, finalize_payment_delivers}
use ticketing_system.Samples.{
  with_order_of, order_of, item, card_payment, paying, with_order_of-IsConsistent,
}

abbrev awaiting : Database
awaiting = with_order_of OrderStatus.awaiting_payment

abbrev started : (Payment × Option RedirectUrl) × Database
started = ((card_payment, some (redirect_url card_payment 77)), paying)

start_payment_replays_example : start_payment paying 7 1 77 230 ≡ ok started
unfolding start_payment require_awaiting_order require_active_payment_method require_payment_method
    start_keyed start_active create_payment flush_payment scalar exists
start_payment_replays_example =
    start_payment_replays awaiting 7 1 77 220 230 (order_of OrderStatus.awaiting_payment) started
      refl refl

finalize_payment_delivers_example :
    (r : Payment × Database) × ((finalize_payment (λ _. "code") (λ _. 2025) paying 7 1 true 230
        ≡ ok r)
      × Delivered card_payment (order_of OrderStatus.awaiting_payment) item 230 r)
unfolding require_payment_for_user require_order_of_payment scalar exists count
finalize_payment_delivers_example =
    finalize_payment_delivers (λ _. "code") (λ _. 2025) paying 7 1 230 card_payment
      (order_of OrderStatus.awaiting_payment) item
      (with_order_of-IsConsistent OrderStatus.awaiting_payment).keyed (λ _. omega arith) refl refl
      refl refl refl
