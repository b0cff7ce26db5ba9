-- ===== src/Booking/Orders/Tests.antt =====
-- The gross price of 0.50 at 5 % VAT, which is half a cent above 0.52.
use ticketing_system.Prelude.{◌+◌, ◌*◌, ◌≤◌, ◌<◌}
use ticketing_system.Booking.Orders.{gross_price}
use ticketing_system.Booking.Orders.Money.{gross_price_nearest}

gross_price_nearest_example :
    (50 * 105 < 100 * gross_price 50 105 + 50) × (100 * gross_price 50 105 ≤ 50 * 105 + 50)
gross_price_nearest_example = gross_price_nearest 50 105
