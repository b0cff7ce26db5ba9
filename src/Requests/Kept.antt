-- ===== src/Requests/Kept.antt =====
-- What is bought stays bought after every history of requests.
use ticketing_system.Prelude.{List, [], ◌∷◌}
use ticketing_system.Errors.{get_db-Keeps}
use ticketing_system.Schema.{Database}
use ticketing_system.Booking.Reserve.Purchases.{reserve_ticket-Purchases}
use ticketing_system.Booking.Cart.Purchases.{
  remove_ticket_instance-Purchases, upsert_ticket_holder-Purchases, set_invoice_requested-Purchases,
  upsert_invoice-Purchases,
}
use ticketing_system.Booking.Checkout.Purchases.{checkout-Purchases, reopen_cart-Purchases}
use ticketing_system.Booking.Cleanup.Purchases.{cleanup_expired_reservations-Purchases}
use ticketing_system.Payments.Purchases.{start_payment-Purchases, finalize_payment-Purchases}
use ticketing_system.Requests.{
  Request, reserves, removes_item, puts_holder, requests_invoice, puts_invoice, checks_out, reopens,
  starts_payment, finalizes_payment, cleans_up, Environment, step, run,
}
use ticketing_system.Requests.History.{step-Preserves}
use ticketing_system.Invariants.{IsConsistent}
use ticketing_system.Invariants.Purchases.{Purchases, Purchases-refl, Purchases-trans}

module _ (env : Environment) where
  step-Purchases : (db : Database) (r : Request) → IsConsistent db → Purchases db (step env db r)
  unfolding step
  step-Purchases db (reserves b) c =
      get_db-Keeps (Purchases db) db _ (Purchases-refl db) (reserve_ticket-Purchases db b c)
  step-Purchases db (removes_item user id) c =
      get_db-Keeps (Purchases db) db _ (Purchases-refl db)
        (remove_ticket_instance-Purchases env.nullifies db user id c.keyed)
  step-Purchases db (puts_holder user id schema today) c =
      get_db-Keeps (Purchases db) db _ (Purchases-refl db)
        (upsert_ticket_holder-Purchases db id schema user today)
  step-Purchases db (requests_invoice user wanted) c =
      get_db-Keeps (Purchases db) db _ (Purchases-refl db)
        (set_invoice_requested-Purchases db wanted user c.keyed)
  step-Purchases db (puts_invoice user schema) c =
      get_db-Keeps (Purchases db) db _ (Purchases-refl db) (upsert_invoice-Purchases db schema user)
  step-Purchases db (checks_out user now later) c =
      get_db-Keeps (Purchases db) db _ (Purchases-refl db)
        (checkout-Purchases db user c.keyed now later)
  step-Purchases db (reopens user now) c =
      get_db-Keeps (Purchases db) db _ (Purchases-refl db)
        (reopen_cart-Purchases db user c.keyed now)
  step-Purchases db (starts_payment user method key now) c =
      get_db-Keeps (Purchases db) db _ (Purchases-refl db)
        (start_payment-Purchases db user method key now)
  step-Purchases db (finalizes_payment user id success now) c =
      get_db-Keeps (Purchases db) db _ (Purchases-refl db)
        (finalize_payment-Purchases env.code env.fiscal_year db user id success now c.keyed)
  step-Purchases db (cleans_up now limit) c =
      get_db-Keeps (Purchases db) db _ (Purchases-refl db)
        (cleanup_expired_reservations-Purchases db now limit c)

  -- What is bought stays: after any history of requests on consistent tables, every order that was
  -- completed, every ticket that was issued and every instance that has a ticket is there as it was.
  pub run-Purchases :
      (db : Database) (rs : List Request) → IsConsistent db → Purchases db (run env db rs)
  unfolding run
  run-Purchases db [] c = Purchases-refl db
  run-Purchases db (r ∷ rs) c =
      Purchases-trans db (step env db r) _ (step-Purchases db r c)
        (run-Purchases (step env db r) rs (step-Preserves env db r c).consistent)
