-- ===== src/Payments/Consistent.antt =====
-- Payments keep the booking tables consistent, and touch no stock.
use ticketing_system.Prelude.{
  ℕ, ◌≡◌, refl, Bool, true, not, ◌&&◌, List, [], ◌∷◌, String, Option, none, some, arith, ◌==◌, ap,
  ◌∙◌, inl, inr, Bool-cases, is_some,
}
use ticketing_system.Errors.{
  conflict, on_integrity_error, Ensures, Ensures-map, Ensures_ok, Ensures-bind, Ensures-raise_if,
  Ensures-on_integrity_error, returned, raised, or_raise, or_raise_ok,
}
use ticketing_system.Table.{scalar, exists}
use ticketing_system.Table.Keys.{scalar-key}
use ticketing_system.Schema.{
  Database, Order, TicketInstance, Payment, PaymentMethod, OrderStatus, is_status, is_open,
}
use ticketing_system.Booking.Orders.{save_order}
use ticketing_system.Booking.Orders.Save.{Renews, save_order-IsConsistent}
use ticketing_system.Booking.Cart.{invoice_of}
use ticketing_system.Booking.Checkout.{with_status, is_open_payment}
use ticketing_system.Invoices.Rows.{issue_invoice_for_order-IsInvoicing}
use ticketing_system.Payments.{
  RedirectUrl, require_awaiting_order, require_active_payment_method, flush_payment, new_payment,
  replay_payment, reuse_payment, create_payment, start_active, start_keyed, start_payment,
  require_payment_for_user, require_order_of_payment, add_ticket, add_tickets, issue_tickets,
  settle_payment, issue_requested_invoice, complete_payment, fail_payment, finalize_payment,
  is_same_payload, is_final,
}
use ticketing_system.Invariants.{
  rows, IsConsistent, Preserves, Preserves-refl, Preserves-trans, rows-Preserves,
}

-- Only the payments and their sequence change.
abbrev KeepsRows : Database → (Payment × Option RedirectUrl) × Database → Type 0
KeepsRows db r = rows r.1 ≡ rows db

module _ (db : Database) (o : Order) (pm : PaymentMethod) (key : ℕ) where
  flush_payment-rows : (p : Payment) → Ensures (λ db'. rows db' ≡ rows db) (flush_payment db p)
  unfolding flush_payment
  flush_payment-rows p =
      Ensures-raise_if (exists (λ q. q.idempotency_key == p.idempotency_key) db.payments) _ _ λ _.
        Ensures-raise_if (is_open p.status && exists (is_open_payment p.order_id) db.payments) _ _
          λ _. returned refl

  create_payment-rows : Ensures (KeepsRows db) (create_payment db o pm key)
  unfolding create_payment
  create_payment-rows =
      Ensures-bind
        (on_integrity_error (flush_payment db (new_payment db o pm key))
          (conflict "Payment already exists for this order"))
        _
        λ db1 e. returned (
          Ensures_ok _
            (Ensures-on_integrity_error _ _ (flush_payment-rows (new_payment db o pm key))) e)

  reuse_payment-rows : (p : Payment) → Ensures (KeepsRows db) (reuse_payment db o pm p)
  unfolding reuse_payment
  reuse_payment-rows p =
      elim (Bool-cases (p.payment_method_id == pm.id && p.amount == o.total_price)) [
        | inl same ↦ rw same (elim (Bool-cases (is_open p.status)) [
          | inl e ↦ rw e (returned refl)
          | inr e ↦ rw e (returned refl)
        ])
        | inr other ↦ rw other raised
      ]

  start_active-rows : (p : Option Payment) → Ensures (KeepsRows db) (start_active db o pm key p)
  unfolding start_active
  start_active-rows none = create_payment-rows
  start_active-rows (some p) = reuse_payment-rows p

  start_keyed-rows : (p : Option Payment) → Ensures (KeepsRows db) (start_keyed db o pm key p)
  unfolding start_keyed replay_payment
  start_keyed-rows none = start_active-rows _
  start_keyed-rows (some p) = Ensures-raise_if (not (is_same_payload p o pm)) _ _ λ _. returned refl

pub start_payment-Preserves :
    (db : Database) (user_id payment_method_id key now : ℕ)
    → IsConsistent db
    → Ensures
        (λ (r : (Payment × Option RedirectUrl) × Database). Preserves db r.1)
        (start_payment db user_id payment_method_id key now)
unfolding start_payment
start_payment-Preserves db user_id pm_id key now c =
    Ensures-bind (require_awaiting_order db user_id now) _ λ o _.
      Ensures-bind (require_active_payment_method db pm_id) _
        λ pm _. Ensures-map _ (λ r e. rows-Preserves db r.1 e c) (start_keyed-rows db o pm key _)

-- The order of a payment that can be finalised awaits it.
pub require_order_of_payment-row :
    (db : Database) (p : Payment)
    → Ensures
        (λ o.
          (scalar (λ o. o.id == p.order_id) db.orders ≡ some o)
          × (is_status o.status OrderStatus.awaiting_payment ≡ true))
        (require_order_of_payment db p)
unfolding require_order_of_payment
require_order_of_payment-row db p =
    Ensures-bind (or_raise (scalar (λ o. o.id == p.order_id) db.orders) _) _ λ o e.
      Ensures-raise_if (not (is_status o.status OrderStatus.awaiting_payment)) _ _
        λ awaiting. returned (or_raise_ok _ _ _ e, ground arith)

completed-Renews :
    (o : Order)
    → is_status o.status OrderStatus.awaiting_payment ≡ true
    → Renews o (with_status OrderStatus.completed o)
completed-Renews o h = record {
  same_id = refl;
  same_user = refl;
  active = λ e. cc;
  counted = λ _. ground arith;
  same_total = refl;
}

add_tickets-rows :
    (code : ℕ → String) (db : Database) (ts : List TicketInstance)
    → rows (add_tickets code db ts) ≡ rows db
unfolding add_tickets
add_tickets-rows code db [] = refl
add_tickets-rows code db (t ∷ ts) = add_tickets-rows code (add_ticket code db t) ts

issue_tickets-rows :
    (code : ℕ → String) (db : Database) (order_id : ℕ)
    → rows (issue_tickets code db order_id) ≡ rows db
unfolding issue_tickets
issue_tickets-rows code db order_id = add_tickets-rows code db _

issue_requested_invoice-rows :
    (fiscal_year : ℕ → ℕ) (db : Database) (o : Order) (now : ℕ)
    → rows (issue_requested_invoice fiscal_year db o now) ≡ rows db
unfolding issue_requested_invoice
issue_requested_invoice-rows fiscal_year db o now =
    elim (Bool-cases (o.invoice_requested && is_some (invoice_of db o.id))) [
      | inl e ↦ rw e (ap rows (issue_invoice_for_order-IsInvoicing fiscal_year db o now))
      | inr e ↦ rw e
    ]

module _ (code : ℕ → String) (fiscal_year : ℕ → ℕ) where
  complete_payment-Preserves :
      (db : Database) (p : Payment) (o : Order) (now : ℕ)
      → scalar (λ r. r.id == o.id) db.orders ≡ some o
      → is_status o.status OrderStatus.awaiting_payment ≡ true
      → IsConsistent db
      → Preserves db (complete_payment code fiscal_year db p o now).1
  unfolding complete_payment save_order
  complete_payment-Preserves db p o now found awaiting c =
      let o' = with_status OrderStatus.completed o in
      let c' = save_order-IsConsistent db o o' found (completed-Renews o awaiting) c in
      Preserves-trans db (save_order db o') _
        (record { consistent = c'; same_stock = λ k g. (g, refl) })
        (rows-Preserves (save_order db o') _
          (issue_tickets-rows code _ o.id ∙ issue_requested_invoice-rows fiscal_year _ o' now) c')

  settle_payment-Preserves :
      (db : Database) (p : Payment) (o : Order) (success : Bool) (now : ℕ)
      → scalar (λ r. r.id == o.id) db.orders ≡ some o
      → is_status o.status OrderStatus.awaiting_payment ≡ true
      → IsConsistent db
      → Preserves db (settle_payment code fiscal_year db p o success now).1
  unfolding settle_payment fail_payment
  settle_payment-Preserves db p o success now found awaiting c =
      elim (Bool-cases (is_final p.status)) [
        | inl e ↦ rw e (Preserves-refl db c)
        | inr e ↦ rw e (elim (Bool-cases success) [
          | inl s ↦ rw s (complete_payment-Preserves db p o now found awaiting c)
          | inr s ↦ rw s (rows-Preserves db _ refl c)
        ])
      ]

  pub finalize_payment-Preserves :
      (db : Database) (user_id payment_id : ℕ) (success : Bool) (now : ℕ)
      → IsConsistent db
      → Ensures
          (λ (r : Payment × Database). Preserves db r.1)
          (finalize_payment code fiscal_year db user_id payment_id success now)
  unfolding finalize_payment
  finalize_payment-Preserves db user_id payment_id success now c =
      Ensures-bind (require_payment_for_user db payment_id user_id) _ λ p _.
        Ensures-bind (require_order_of_payment db p) _ λ o e.
          let row = Ensures_ok _ (require_order_of_payment-row db p) e in
          returned (
            settle_payment-Preserves db p o success now
              (scalar-key (λ o. o.id) _ db.orders o c.keyed.orders row.0) row.1 c)
