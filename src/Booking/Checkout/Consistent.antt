-- ===== src/Booking/Checkout/Consistent.antt =====
-- Checkout and reopening keep the booking tables consistent, and touch no stock.
use ticketing_system.Prelude.{ℕ, ◌≡◌, refl, true, not, ◌&&◌, some, none, Option, arith, is_some}
use ticketing_system.Errors.{
  Ensures, Ensures-bind, Ensures-raise_if, returned, or_raise, or_raise_ok,
}
use ticketing_system.Table.{scalar, exists}
use ticketing_system.Table.Laws.{scalar_holds}
use ticketing_system.Schema.{Database, Order, OrderStatus, is_active}
use ticketing_system.Booking.Orders.{
  is_users, require_order, require_not_expired, require_cart_has_items, require_no_missing_holders,
  extend_reservation, save_order,
}
use ticketing_system.Booking.Orders.Save.{Renews, row_of_users, save_order-IsConsistent}
use ticketing_system.Booking.Cart.{invoice_of}
use ticketing_system.Booking.Checkout.{
  with_status, process_order, checkout_awaiting, checkout, is_open_payment, reopen_cart,
}
use ticketing_system.Invariants.{IsConsistent, Preserves}

-- An active order in another active status.
moved-Renews :
    (u : ℕ) (s s' : OrderStatus) (o : Order) (now : ℕ)
    → is_active s ≡ true
    → is_users u s o ≡ true
    → Renews o (extend_reservation (with_status s' o) now)
unfolding extend_reservation
moved-Renews u s s' o now active owned = record {
  same_id = refl;
  same_user = refl;
  active = λ _. ground arith;
  counted = λ _. ground arith;
  same_total = refl;
}

module _ (db : Database) (user_id : ℕ) where
  moved-Preserves :
      (s s' : OrderStatus) (o : Order) (now : ℕ)
      → is_active s ≡ true
      → scalar (is_users user_id s) db.orders ≡ some o
      → IsConsistent db
      → Preserves db (save_order db (extend_reservation (with_status s' o) now))
  unfolding save_order
  moved-Preserves s s' o now active found c = record {
    consistent =
        save_order-IsConsistent db o (extend_reservation (with_status s' o) now)
          (row_of_users db user_id s o c.keyed found)
          (moved-Renews user_id s s' o now active (scalar_holds _ db.orders o found)) c;
    same_stock = λ k g. (g, refl);
  }

  pub process_order-Preserves :
      (now : ℕ)
      → IsConsistent db
      → Ensures (λ (r : Order × Database). Preserves db r.1) (process_order db user_id now)
  unfolding process_order require_order
  process_order-Preserves now c =
      Ensures-bind (or_raise (scalar (is_users user_id OrderStatus.pending) db.orders) _) _
        λ o found. Ensures-bind (require_not_expired o now) _ λ _ _.
          Ensures-bind (require_cart_has_items db o.id) _ λ _ _.
            Ensures-raise_if (o.invoice_requested && not (is_some (invoice_of db o.id))) _ _ λ _.
              Ensures-bind (require_no_missing_holders db o.id) _
                λ _ _. returned (moved-Preserves _ _ o now refl (or_raise_ok _ _ _ found) c)

  checkout_awaiting-Preserves :
      (now later : ℕ) (o : Option Order)
      → IsConsistent db
      → Ensures
          (λ (r : Order × Database). Preserves db r.1)
          (checkout_awaiting db user_id now later o)
  unfolding checkout_awaiting
  checkout_awaiting-Preserves now later (some o) c =
      Ensures-bind (require_not_expired o now) _
        λ _ _. returned (record { consistent = c; same_stock = λ k g. (g, refl) })
  checkout_awaiting-Preserves now later none c = process_order-Preserves later c

  pub checkout-Preserves :
      (now later : ℕ)
      → IsConsistent db
      → Ensures (λ (r : Order × Database). Preserves db r.1) (checkout db user_id now later)
  unfolding checkout
  checkout-Preserves now later c = checkout_awaiting-Preserves now later _ c

  pub reopen_cart-Preserves :
      (now : ℕ)
      → IsConsistent db
      → Ensures (λ (r : Order × Database). Preserves db r.1) (reopen_cart db user_id now)
  unfolding reopen_cart require_order
  reopen_cart-Preserves now c =
      Ensures-bind (or_raise (scalar (is_users user_id OrderStatus.awaiting_payment) db.orders) _) _
        λ o found. Ensures-bind (require_not_expired o now) _ λ _ _.
          Ensures-raise_if (exists (is_open_payment o.id) db.payments) _ _
            λ _. returned (moved-Preserves _ _ o now refl (or_raise_ok _ _ _ found) c)
