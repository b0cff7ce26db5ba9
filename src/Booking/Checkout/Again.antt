-- ===== src/Booking/Checkout/Again.antt =====
-- Checking out twice.
use ticketing_system.Prelude.{
  ℕ, ◌≤◌, ◌≡◌, refl, false, not, ◌&&◌, some, none, arith, is_some, ltb, inl, inr, Option-cases,
}
use ticketing_system.Errors.{
  ok, Ensures, Ensures-bind, Ensures-raise_if, Ensures_ok, returned, or_raise, or_raise_ok,
}
use ticketing_system.Table.{scalar}
use ticketing_system.Table.Replace.{scalar-replace}
use ticketing_system.Table.Laws.{scalar_holds}
use ticketing_system.Schema.{Database, Order, OrderStatus}
use ticketing_system.Booking.Orders.{
  is_users, require_order, require_not_expired, require_cart_has_items, require_no_missing_holders,
  extend_reservation, save_order,
}
use ticketing_system.Booking.Orders.Save.{row_of_users}
use ticketing_system.Booking.Cart.{invoice_of}
use ticketing_system.Booking.Checkout.{process_order, checkout_awaiting, checkout}
use ticketing_system.Invariants.{IsKeyed}

-- The order that a checkout hands back awaits payment in the new database.
abbrev Awaits : ℕ → Order × Database → Type 0
Awaits user_id r = scalar (is_users user_id OrderStatus.awaiting_payment) r.1.orders ≡ some r.0

module _ (db : Database) (user_id : ℕ) (keyed : IsKeyed db) where
  process_order-Awaits :
      (now : ℕ)
      → scalar (is_users user_id OrderStatus.awaiting_payment) db.orders ≡ none
      → Ensures (Awaits user_id) (process_order db user_id now)
  unfolding process_order require_order save_order extend_reservation
  process_order-Awaits now no_other =
      Ensures-bind (or_raise (scalar (is_users user_id OrderStatus.pending) db.orders) _) _ λ o e.
        Ensures-bind (require_not_expired o now) _ λ _ _.
          Ensures-bind (require_cart_has_items db o.id) _ λ _ _.
            Ensures-raise_if (o.invoice_requested && not (is_some (invoice_of db o.id))) _ _ λ _.
              Ensures-bind (require_no_missing_holders db o.id) _ λ _ _.
                let found = or_raise_ok _ _ _ e in
                let owned = scalar_holds _ db.orders o found in
                returned (
                  scalar-replace (λ o. o.id) (is_users user_id OrderStatus.awaiting_payment) o.id o
                    _ db.orders (row_of_users db user_id _ o keyed found) no_other
                    (ground (arith, owned)))

  checkout-Awaits : (now later : ℕ) → Ensures (Awaits user_id) (checkout db user_id now later)
  unfolding checkout checkout_awaiting
  checkout-Awaits now later =
      elim (Option-cases (scalar (is_users user_id OrderStatus.awaiting_payment) db.orders)) [
        | inl e ↦ rw e (process_order-Awaits later e)
        | inr (o, e) ↦ rw e (Ensures-bind (require_not_expired o now) _ λ _ _. returned e)
      ]

-- Where keys are unique, checking out again after a checkout that succeeded, before the order's
-- reservation ends, gives the same order and changes nothing.
pub checkout_again :
    (db : Database) (user_id now later now' later' : ℕ) (r : Order × Database)
    → IsKeyed db
    → checkout db user_id now later ≡ ok r
    → now' ≤ r.0.reserved_until
    → checkout r.1 user_id now' later' ≡ ok r
unfolding checkout checkout_awaiting require_not_expired
checkout_again db user_id now later now' later' r keyed e in_time =
    let found = Ensures_ok _ (checkout-Awaits db user_id keyed now later) e in
    let not_expired : ltb r.0.reserved_until now' ≡ false = ground arith in
    rw (found, not_expired) refl
