-- ===== src/Requests.antt =====
-- The requests of app/api/v1/routes/booking.py, cart.py, payments.py and admin_maintenance.py that
-- change the booking tables, each in a transaction of its own (app/core/database.py), one after
-- the other.
pub mod History
pub mod Kept
mod Tests
use ticketing_system.Prelude.{ℕ, Bool, List, [], ◌∷◌, String}
use ticketing_system.Errors.{get_db}
use ticketing_system.Schema.{Database}
use ticketing_system.Booking.Reserve.{Booking, reserve}
use ticketing_system.Booking.Cart.{
  remove_ticket_instance, HolderData, upsert_ticket_holder, set_invoice_requested, InvoiceData,
  upsert_invoice,
}
use ticketing_system.Booking.Checkout.{checkout, reopen_cart}
use ticketing_system.Booking.Cleanup.{cleanup_expired_reservations}
use ticketing_system.Payments.{start_payment, finalize_payment}

-- The user of the session comes first, then the arguments, then the times that the handler reads.
pub data Request : Type 0 where
  reserves : Booking → Request
  removes_item : ℕ → ℕ → Request
  puts_holder : ℕ → ℕ → HolderData → ℕ → Request
  requests_invoice : ℕ → Bool → Request
  puts_invoice : ℕ → InvoiceData → Request
  checks_out : ℕ → ℕ → ℕ → Request
  reopens : ℕ → ℕ → Request
  starts_payment : ℕ → ℕ → ℕ → ℕ → Request
  finalizes_payment : ℕ → ℕ → Bool → ℕ → Request
  cleans_up : ℕ → ℕ → Request

-- What the handlers depend on outside the program: how the ORM deletes, the random ticket codes and
-- the time zone of invoices.
pub record Environment : Type 0 where
  pub nullifies : Bool
  pub code : ℕ → String
  pub fiscal_year : ℕ → ℕ

module _ (env : Environment) where
  pub step : Database → Request → Database
  step db (reserves b) = (get_db db (reserve db b)).1
  step db (removes_item user id) = (get_db db (remove_ticket_instance env.nullifies db user id)).1
  step db (puts_holder user id schema today) =
      (get_db db (upsert_ticket_holder db id schema user today)).1
  step db (requests_invoice user wanted) = (get_db db (set_invoice_requested db wanted user)).1
  step db (puts_invoice user schema) = (get_db db (upsert_invoice db schema user)).1
  step db (checks_out user now later) = (get_db db (checkout db user now later)).1
  step db (reopens user now) = (get_db db (reopen_cart db user now)).1
  step db (starts_payment user method key now) =
      (get_db db (start_payment db user method key now)).1
  step db (finalizes_payment user id success now) =
      (get_db db (finalize_payment env.code env.fiscal_year db user id success now)).1
  step db (cleans_up now limit) = (get_db db (cleanup_expired_reservations db now limit)).1

  pub run : Database → List Request → Database
  run db [] = db
  run db (r ∷ rs) = run (step db r) rs
