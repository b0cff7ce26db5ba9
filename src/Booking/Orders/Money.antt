-- ===== src/Booking/Orders/Money.antt =====
-- Prices and reservation times.
use ticketing_system.Prelude.{ℕ, ◌+◌, ◌*◌, ◌≤◌, ◌<◌, arith}
use ticketing_system.Booking.Orders.{gross_price}

-- The gross price is net times VAT, rounded to the nearest cent and up from the half: the exact
-- value, in hundredths of a cent, lies less than half a cent above it and at most half a cent below.
pub gross_price_nearest :
    (price_net vat_rate : ℕ)
    → (price_net * vat_rate < 100 * gross_price price_net vat_rate + 50)
      × (100 * gross_price price_net vat_rate ≤ price_net * vat_rate + 50)
unfolding gross_price
gross_price_nearest p v = (omega arith, omega arith)
