-- ===== src/Payments/Purchases.antt =====
-- Payments leave what is bought alone.
use ticketing_system.Prelude.{
  ℕ, ◌≡◌, refl, Bool, true, false, List, [], ◌∷◌, ◌++◌, String, Option, some, arith, ◌==◌,
  Bool-cases, inl, inr, subst, sym, ap,
}
use ticketing_system.Errors.{Ensures, Ensures-map, Ensures-bind, Ensures_ok, returned}
use ticketing_system.Table.{scalar, exists}
use ticketing_system.Table.Laws.{scalar-append}
use ticketing_system.Table.Keys.{scalar-key}
use ticketing_system.Schema.{
  Database, Order, OrderStatus, TicketInstance, Payment, PaymentStatus, is_status,
}
use ticketing_system.Booking.Orders.{save_order}
use ticketing_system.Booking.Checkout.{with_status}
use ticketing_system.Payments.{
  RedirectUrl, require_awaiting_order, require_active_payment_method, start_payment,
  require_payment_for_user, require_order_of_payment, add_ticket, add_tickets, issue_tickets,
  settle_payment, issue_requested_invoice, complete_payment, fail_payment, finalize_payment,
  is_final, save_payment,
}
use ticketing_system.Payments.Consistent.{require_order_of_payment-row}
use ticketing_system.Payments.Replay.{start_keyed-Replays}
use ticketing_system.Payments.Delivery.{issue_requested_invoice-IsInvoicing}
use ticketing_system.Invariants.{IsKeyed}
use ticketing_system.Invariants.Purchases.{
  Purchases, Purchases-refl, Purchases-trans, save_order-Purchases, is_of, is_completed,
}

-- The three tables are as they were.
same-Purchases :
    (db db' : Database)
    → db'.orders ≡ db.orders
    → db'.tickets ≡ db.tickets
    → db'.ticket_instances ≡ db.ticket_instances
    → Purchases db db'
same-Purchases db db' same_orders same_tickets same_instances = record {
  orders = λ o c h. subst (λ os. scalar (λ r. r.id == o.id) os ≡ some o) (sym same_orders) h;
  tickets = λ k h. subst (λ ks. scalar (λ r. r.id == k.id) ks ≡ some k) (sym same_tickets) h;
  issued = λ i h. subst (λ ks. exists (is_of i) ks ≡ true) (sym same_tickets) h;
  instances = λ t i h. subst (λ ts. scalar (λ r. r.id == t.id) ts ≡ some t) (sym same_instances) h;
}

pub start_payment-Purchases :
    (db : Database) (user_id pm_id key now : ℕ)
    → Ensures
        (λ (r : (Payment × Option RedirectUrl) × Database). Purchases db r.1)
        (start_payment db user_id pm_id key now)
unfolding start_payment
start_payment-Purchases db user_id pm_id key now =
    Ensures-bind (require_awaiting_order db user_id now) _ λ o _.
      Ensures-bind (require_active_payment_method db pm_id) _ λ pm _.
        Ensures-map _ (λ r v. same-Purchases db r.1 v.same_orders v.same_tickets v.same_instances)
          (start_keyed-Replays db o pm key)

exists-append_left {ℓ} :
    {A : Type ℓ} (p : A → Bool) (xs ys : List A) → exists p xs ≡ true → exists p (xs ++ ys) ≡ true
unfolding exists
exists-append_left p [] ys h = absurd (ground (arith, h))
exists-append_left p (x ∷ xs) ys h = ground (arith, h, exists-append_left p xs ys)

add_tickets-Purchases :
    (code : ℕ → String) (db : Database) (ts : List TicketInstance)
    → Purchases db (add_tickets code db ts)
unfolding add_tickets
add_tickets-Purchases code db [] = Purchases-refl db
add_tickets-Purchases code db (t ∷ ts) =
    Purchases-trans db (add_ticket code db t) _
      (record {
        orders = λ o c h. h;
        tickets = λ k h. scalar-append _ db.tickets _ k h;
        issued = λ i h. exists-append_left (is_of i) db.tickets _ h;
        instances = λ t i h. h;
      })
      (add_tickets-Purchases code (add_ticket code db t) ts)

issue_requested_invoice-Purchases :
    (fiscal_year : ℕ → ℕ) (db : Database) (o : Order) (now : ℕ)
    → Purchases db (issue_requested_invoice fiscal_year db o now)
issue_requested_invoice-Purchases fiscal_year db o now =
    let same = issue_requested_invoice-IsInvoicing fiscal_year db o now in
    same-Purchases db _ (ap (λ d. d.orders) same) (ap (λ d. d.tickets) same)
      (ap (λ d. d.ticket_instances) same)

awaiting_not_completed :
    (o : Order) → is_status o.status OrderStatus.awaiting_payment ≡ true → is_completed o ≡ false
awaiting_not_completed o h = ground arith

module _ (code : ℕ → String) (fiscal_year : ℕ → ℕ) where
  complete_payment-Purchases :
      (db : Database) (p : Payment) (o : Order) (now : ℕ)
      → scalar (λ r. r.id == o.id) db.orders ≡ some o
      → is_completed o ≡ false
      → Purchases db (complete_payment code fiscal_year db p o now).1
  unfolding complete_payment issue_tickets save_order
  complete_payment-Purchases db p o now row not_done =
      let p' = record p { status = PaymentStatus.completed; paid_at = some now } in
      let o' = with_status OrderStatus.completed o in
      let db0 = save_payment db p' in
      let db1 = save_order db0 o' in
      Purchases-trans db db0 _ (same-Purchases db db0 refl refl refl) (
        Purchases-trans db0 db1 _ (save_order-Purchases db0 o o' row not_done refl) (
          Purchases-trans db1 (issue_requested_invoice fiscal_year db1 o' now) _
            (issue_requested_invoice-Purchases fiscal_year db1 o' now)
            (add_tickets-Purchases code _ _)))

  settle_payment-Purchases :
      (db : Database) (p : Payment) (o : Order) (success : Bool) (now : ℕ)
      → scalar (λ r. r.id == o.id) db.orders ≡ some o
      → is_completed o ≡ false
      → Purchases db (settle_payment code fiscal_year db p o success now).1
  unfolding settle_payment fail_payment
  settle_payment-Purchases db p o success now row not_done = elim (Bool-cases (is_final p.status)) [
    | inl e ↦ rw e (Purchases-refl db)
    | inr e ↦ rw e (elim (Bool-cases success) [
      | inl s ↦ rw s (complete_payment-Purchases db p o now row not_done)
      | inr s ↦ rw s (same-Purchases db _ refl refl refl)
    ])
  ]

  pub finalize_payment-Purchases :
      (db : Database) (user_id payment_id : ℕ) (success : Bool) (now : ℕ)
      → IsKeyed db
      → Ensures
          (λ (r : Payment × Database). Purchases db r.1)
          (finalize_payment code fiscal_year db user_id payment_id success now)
  unfolding finalize_payment
  finalize_payment-Purchases db user_id payment_id success now keyed =
      Ensures-bind (require_payment_for_user db payment_id user_id) _ λ p _.
        Ensures-bind (require_order_of_payment db p) _ λ o e.
          let row = Ensures_ok _ (require_order_of_payment-row db p) e in
          returned (
            settle_payment-Purchases db p o success now
              (scalar-key (λ o. o.id) _ db.orders o keyed.orders row.0)
              (awaiting_not_completed o row.1))
