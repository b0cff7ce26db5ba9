-- ===== src/Booking/Checkout/Purchases.antt =====
-- Checkout and reopening leave what is bought alone.
use ticketing_system.Prelude.{
  ℕ, ◌≡◌, refl, true, false, not, ◌&&◌, some, none, Option, arith, is_some,
}
use ticketing_system.Errors.{
  Ensures, Ensures-bind, Ensures-raise_if, returned, or_raise, or_raise_ok,
}
use ticketing_system.Table.{scalar, exists}
use ticketing_system.Table.Laws.{scalar_holds}
use ticketing_system.Schema.{Database, Order, OrderStatus, is_active}
use ticketing_system.Booking.Orders.{
  is_users, require_order, require_not_expired, require_cart_has_items, require_no_missing_holders,
  extend_reservation, save_order,
}
use ticketing_system.Booking.Orders.Save.{row_of_users}
use ticketing_system.Booking.Cart.{invoice_of}
use ticketing_system.Booking.Checkout.{
  with_status, process_order, checkout_awaiting, checkout, is_open_payment, reopen_cart,
}
use ticketing_system.Invariants.{IsKeyed}
use ticketing_system.Invariants.Purchases.{
  Purchases, Purchases-refl, save_order-Purchases, is_completed,
}

active_not_completed :
    (u : ℕ) (s : OrderStatus) (o : Order)
    → is_active s ≡ true
    → is_users u s o ≡ true
    → is_completed o ≡ false
active_not_completed u s o active owned = ground arith

module _ (db : Database) (user_id : ℕ) (keyed : IsKeyed db) where
  moved-Purchases :
      (s s' : OrderStatus) (o : Order) (now : ℕ)
      → is_active s ≡ true
      → scalar (is_users user_id s) db.orders ≡ some o
      → Purchases db (save_order db (extend_reservation (with_status s' o) now))
  unfolding extend_reservation
  moved-Purchases s s' o now active found =
      save_order-Purchases db o (extend_reservation (with_status s' o) now)
        (row_of_users db user_id s o keyed found)
        (active_not_completed user_id s o active (scalar_holds _ db.orders o found)) refl

  process_order-Purchases :
      (now : ℕ)
      → Ensures (λ (r : Order × Database). Purchases db r.1) (process_order db user_id now)
  unfolding process_order require_order
  process_order-Purchases now =
      Ensures-bind (or_raise (scalar (is_users user_id OrderStatus.pending) db.orders) _) _
        λ o found. Ensures-bind (require_not_expired o now) _ λ _ _.
          Ensures-bind (require_cart_has_items db o.id) _ λ _ _.
            Ensures-raise_if (o.invoice_requested && not (is_some (invoice_of db o.id))) _ _ λ _.
              Ensures-bind (require_no_missing_holders db o.id) _
                λ _ _. returned (moved-Purchases _ _ o now refl (or_raise_ok _ _ _ found))

  checkout_awaiting-Purchases :
      (now later : ℕ) (o : Option Order)
      → Ensures
          (λ (r : Order × Database). Purchases db r.1)
          (checkout_awaiting db user_id now later o)
  unfolding checkout_awaiting
  checkout_awaiting-Purchases now later (some o) =
      Ensures-bind (require_not_expired o now) _ λ _ _. returned (Purchases-refl db)
  checkout_awaiting-Purchases now later none = process_order-Purchases later

  pub checkout-Purchases :
      (now later : ℕ)
      → Ensures (λ (r : Order × Database). Purchases db r.1) (checkout db user_id now later)
  unfolding checkout
  checkout-Purchases now later = checkout_awaiting-Purchases now later _

  pub reopen_cart-Purchases :
      (now : ℕ) → Ensures (λ (r : Order × Database). Purchases db r.1) (reopen_cart db user_id now)
  unfolding reopen_cart require_order
  reopen_cart-Purchases now =
      Ensures-bind (or_raise (scalar (is_users user_id OrderStatus.awaiting_payment) db.orders) _) _
        λ o found. Ensures-bind (require_not_expired o now) _ λ _ _.
          Ensures-raise_if (exists (is_open_payment o.id) db.payments) _ _
            λ _. returned (moved-Purchases _ _ o now refl (or_raise_ok _ _ _ found))
