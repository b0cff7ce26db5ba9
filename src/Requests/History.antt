-- ===== src/Requests/History.antt =====
-- What holds after every history of requests.
use ticketing_system.Prelude.{ℕ, ◌+◌, ◌≤◌, ◌≡◌, true, List, [], ◌∷◌, arith}
use ticketing_system.Errors.{Result, ok, err, Ensures, returned, raised, get_db-Keeps}
use ticketing_system.Schema.{Database}
use ticketing_system.Booking.Reserve.Consistent.{reserve_ticket-IsConsistent}
use ticketing_system.Booking.Reserve.Stock.{reserve_ticket-SameStock}
use ticketing_system.Booking.Cart.Consistent.{
  remove_ticket_instance-IsConsistent, upsert_ticket_holder-Preserves,
  set_invoice_requested-Preserves, upsert_invoice-Preserves,
}
use ticketing_system.Booking.Cart.Stock.{remove_ticket_instance-SameStock}
use ticketing_system.Booking.Checkout.Consistent.{checkout-Preserves, reopen_cart-Preserves}
use ticketing_system.Booking.Cleanup.Consistent.{cleanup_expired_reservations-Preserves}
use ticketing_system.Payments.Consistent.{start_payment-Preserves, finalize_payment-Preserves}
use ticketing_system.Requests.{
  Request, reserves, removes_item, puts_holder, requests_invoice, puts_invoice, checks_out, reopens,
  starts_payment, finalizes_payment, cleans_up, Environment, step, run,
}
use ticketing_system.Invariants.{
  IsConsistent, SameStock, Preserves, Preserves-refl, Preserves-trans, is_general, left, sold,
  stock,
}

both-Preserves {ℓ} :
    {A : Type ℓ} (db : Database) (r : Result (A × Database))
    → Ensures (λ (p : A × Database). IsConsistent p.1) r
    → Ensures (λ (p : A × Database). SameStock db p.1) r
    → Ensures (λ (p : A × Database). Preserves db p.1) r
both-Preserves db (ok p) (returned c) (returned s) =
    returned (record { consistent = c; same_stock = s })
both-Preserves db (err e) c s = raised

module _ (env : Environment) where
  pub step-Preserves :
      (db : Database) (r : Request) → IsConsistent db → Preserves db (step env db r)
  unfolding step
  step-Preserves db (reserves b) c = get_db-Keeps (Preserves db) db _ (Preserves-refl db c) (
      both-Preserves db _ (reserve_ticket-IsConsistent db b c)
        (reserve_ticket-SameStock db b c.keyed))
  step-Preserves db (removes_item user id) c =
      get_db-Keeps (Preserves db) db _ (Preserves-refl db c) (
        both-Preserves db _ (remove_ticket_instance-IsConsistent env.nullifies db user id c)
          (remove_ticket_instance-SameStock env.nullifies db user id c.keyed))
  step-Preserves db (puts_holder user id schema today) c =
      get_db-Keeps (Preserves db) db _ (Preserves-refl db c)
        (upsert_ticket_holder-Preserves db id schema user today c)
  step-Preserves db (requests_invoice user wanted) c =
      get_db-Keeps (Preserves db) db _ (Preserves-refl db c)
        (set_invoice_requested-Preserves db wanted user c)
  step-Preserves db (puts_invoice user schema) c =
      get_db-Keeps (Preserves db) db _ (Preserves-refl db c)
        (upsert_invoice-Preserves db schema user c)
  step-Preserves db (checks_out user now later) c =
      get_db-Keeps (Preserves db) db _ (Preserves-refl db c)
        (checkout-Preserves db user now later c)
  step-Preserves db (reopens user now) c =
      get_db-Keeps (Preserves db) db _ (Preserves-refl db c) (reopen_cart-Preserves db user now c)
  step-Preserves db (starts_payment user method key now) c =
      get_db-Keeps (Preserves db) db _ (Preserves-refl db c)
        (start_payment-Preserves db user method key now c)
  step-Preserves db (finalizes_payment user id success now) c =
      get_db-Keeps (Preserves db) db _ (Preserves-refl db c)
        (finalize_payment-Preserves env.code env.fiscal_year db user id success now c)
  step-Preserves db (cleans_up now limit) c =
      get_db-Keeps (Preserves db) db _ (Preserves-refl db c)
        (cleanup_expired_reservations-Preserves db now limit c)

  run-Preserves :
      (db : Database) (rs : List Request) → IsConsistent db → Preserves db (run env db rs)
  unfolding run
  run-Preserves db [] c = Preserves-refl db c
  run-Preserves db (r ∷ rs) c =
      let first = step-Preserves db r c in
      Preserves-trans db (step env db r) _ first (run-Preserves (step env db r) rs first.consistent)

  -- After any history of requests on consistent tables the tables are consistent: keys are unique
  -- and below their sequences, instances stand in known orders, no user has two active orders, no
  -- seat of an event is held twice, and every order that is not cancelled costs what its tickets cost.
  pub run-IsConsistent :
      (db : Database) (rs : List Request) → IsConsistent db → IsConsistent (run env db rs)
  run-IsConsistent db rs c = (run-Preserves db rs c).consistent

  -- No history of requests on consistent tables oversells a sector that is sold by count: the tickets
  -- left and the tickets in orders are together what they were, so never more are in orders than the
  -- stock at the start.
  pub run_never_oversells :
      (db : Database) (rs : List Request) (k : ℕ)
      → IsConsistent db
      → is_general db.sectors db.event_sectors k ≡ true
      → (left (run env db rs) k + sold (run env db rs) k ≡ stock db k)
        × (sold (run env db rs) k ≤ stock db k)
  run_never_oversells db rs k c g =
      let kept = ((run-Preserves db rs c).same_stock k g).1 in (kept, omega (arith, kept))
