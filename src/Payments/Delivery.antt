-- ===== src/Payments/Delivery.antt =====
-- What a payment that succeeds delivers.
use ticketing_system.Prelude.{
  ℕ, ◌+◌, ◌≤◌, ◌≡◌, refl, Bool, true, false, not, ◌&&◌, List, [], ◌∷◌, String, some, arith, ◌==◌,
  ap, sym, inl, inr, Bool-cases, is_some, subst,
}
use ticketing_system.Errors.{ok, Ensures_ok}
use ticketing_system.Table.{scalar, exists, select, count, Unique}
use ticketing_system.Table.Laws.{count-append, count-exists}
use ticketing_system.Table.Keys.{scalar-key}
use ticketing_system.Table.Replace.{scalar-replaced, count-key}
use ticketing_system.Schema.{Database, Order, TicketInstance, Payment, OrderStatus, PaymentStatus}
use ticketing_system.Booking.Orders.{save_order}
use ticketing_system.Booking.Cart.{invoice_of}
use ticketing_system.Booking.Checkout.{with_status}
use ticketing_system.Invoices.Rows.{IsInvoicing, issue_invoice_for_order-IsInvoicing}
use ticketing_system.Payments.{
  require_payment_for_user, require_order_of_payment, new_ticket, add_ticket, add_tickets,
  issue_tickets, settle_payment, issue_requested_invoice, complete_payment, finalize_payment,
  is_final, save_payment,
}
use ticketing_system.Payments.Consistent.{require_order_of_payment-row}
use ticketing_system.Invariants.Purchases.{is_of}
use ticketing_system.Invariants.{IsKeyed}

-- The unique column ticket_instance_id of tickets.
abbrev pub HasOneTicket : Database → Type 0
HasOneTicket db = (instance_id : ℕ) → count (is_of instance_id) db.tickets ≤ 1

module _ (code : ℕ → String) where
  add_tickets-orders :
      (db : Database) (ts : List TicketInstance) → (add_tickets code db ts).orders ≡ db.orders
  unfolding add_tickets
  add_tickets-orders db [] = refl
  add_tickets-orders db (t ∷ ts) = add_tickets-orders (add_ticket code db t) ts

  -- As many tickets more as there are instances of this key.
  count-add_tickets :
      (db : Database) (ts : List TicketInstance) (i : ℕ)
      → count (is_of i) (add_tickets code db ts).tickets
        ≡ count (is_of i) db.tickets + count (λ t. t.id == i) ts
  unfolding add_tickets count
  count-add_tickets db [] i = omega arith
  count-add_tickets db (t ∷ ts) i = omega (
    arith,
    count-add_tickets (add_ticket code db t) ts i,
    count-append (is_of i) db.tickets (new_ticket code db.next.ticket_id t.id ∷ []),
  )

count-select {ℓ} :
    {A : Type ℓ} (p q : A → Bool) (xs : List A) → count p (select q xs) ≡ count (λ x. p x && q x) xs
unfolding count select
count-select p q [] = refl
count-select p q (x ∷ xs) = elim (Bool-cases (q x)) [
  | inl e ↦ rw (e, count-select p q xs) (ground arith)
  | inr e ↦ rw (e, count-select p q xs) (ground arith)
]

exists-count {ℓ} : {A : Type ℓ} (p : A → Bool) (xs : List A) → exists p xs ≡ true → 1 ≤ count p xs
unfolding count exists
exists-count p [] h = absurd (ground (arith, h))
exists-count p (x ∷ xs) h = ground (arith, exists-count p xs, h)

-- Every instance of the order has one ticket after tickets are issued.
issue_tickets_once :
    (code : ℕ → String) (db : Database) (order_id : ℕ) (t : TicketInstance)
    → Unique (λ t. t.id) db.ticket_instances
    → HasOneTicket db
    → scalar (λ s. s.id == t.id) db.ticket_instances ≡ some t
    → t.order_id ≡ order_id
    → count (is_of t.id) (issue_tickets code db order_id).tickets ≡ 1
unfolding issue_tickets
issue_tickets_once code db order_id t keyed one found in_order =
    let wanted = λ (s : TicketInstance).
      s.order_id == order_id && not (exists (λ k. k.ticket_instance_id == s.id) db.tickets) in
    let issued = count-add_tickets code db (select wanted db.ticket_instances) t.id in
    let chosen = count-select (λ s. s.id == t.id) wanted db.ticket_instances in
    let once = count-key (λ s. s.id) t.id wanted t db.ticket_instances keyed found in
    elim (Bool-cases (exists (is_of t.id) db.tickets)) [
      | inl had ↦ ground (
        arith,
        issued,
        chosen,
        once,
        in_order,
        had,
        one t.id,
        exists-count (is_of t.id) db.tickets had,
      )
      | inr new ↦
          ground
            (arith, issued, chosen, once, in_order, new, count-exists (is_of t.id) db.tickets new)
    ]

pub issue_requested_invoice-IsInvoicing :
    (fiscal_year : ℕ → ℕ) (db : Database) (o : Order) (now : ℕ)
    → IsInvoicing db (issue_requested_invoice fiscal_year db o now)
unfolding issue_requested_invoice
issue_requested_invoice-IsInvoicing fiscal_year db o now =
    elim (Bool-cases (o.invoice_requested && is_some (invoice_of db o.id))) [
      | inl e ↦ rw e (issue_invoice_for_order-IsInvoicing fiscal_year db o now)
      | inr e ↦ rw e refl
    ]

-- The payment is paid, its order completed, and the instance has one ticket.
pub record Delivered (p : Payment) (o : Order) (t : TicketInstance) (now : ℕ)
    (r : Payment × Database) : Type 0 where
  pub paid : r.0 ≡ record p { status = PaymentStatus.completed; paid_at = some now }
  pub completed : scalar (λ s. s.id == o.id) r.1.orders ≡ some (with_status OrderStatus.completed o)
  pub one_ticket : count (is_of t.id) r.1.tickets ≡ 1

module _ (code : ℕ → String) (fiscal_year : ℕ → ℕ) where
  complete_payment-Delivered :
      (db : Database) (p : Payment) (o : Order) (t : TicketInstance) (now : ℕ)
      → IsKeyed db
      → HasOneTicket db
      → scalar (λ s. s.id == o.id) db.orders ≡ some o
      → scalar (λ s. s.id == t.id) db.ticket_instances ≡ some t
      → t.order_id ≡ o.id
      → Delivered p o t now (complete_payment code fiscal_year db p o now)
  unfolding complete_payment save_order issue_tickets
  complete_payment-Delivered db p o t now keyed one o_row t_row in_order =
      let p' = record p { status = PaymentStatus.completed; paid_at = some now } in
      let o' = with_status OrderStatus.completed o in
      let db1 = save_order (save_payment db p') o' in
      let db2 = issue_requested_invoice fiscal_year db1 o' now in
      let same = issue_requested_invoice-IsInvoicing fiscal_year db1 o' now in
      record {
        paid = refl;
        completed =
            rw (add_tickets-orders code db2 _, ap (λ d. d.orders) same)
              (scalar-replaced (λ o. o.id) o.id o o' db.orders o_row refl);
        one_ticket =
            subst (λ d. count (is_of t.id) (issue_tickets code d o.id).tickets ≡ 1) (sym same)
              (issue_tickets_once code _ o.id t keyed.ticket_instances one t_row in_order);
      }

  -- Where keys are unique and no instance has two tickets, a payment of the user that is not final, for
  -- an order that awaits payment, succeeds whenever the provider says so: the call returns, the payment
  -- is completed and dated, the order is completed, and every ticket instance of the order then has
  -- exactly one ticket.
  pub finalize_payment_delivers :
      (db : Database) (user_id payment_id now : ℕ) (p : Payment) (o : Order) (t : TicketInstance)
      → IsKeyed db
      → HasOneTicket db
      → require_payment_for_user db payment_id user_id ≡ ok p
      → require_order_of_payment db p ≡ ok o
      → is_final p.status ≡ false
      → scalar (λ s. s.id == t.id) db.ticket_instances ≡ some t
      → t.order_id ≡ o.id
      → (r : Payment × Database) × ((finalize_payment code fiscal_year db user_id payment_id true
              now
            ≡ ok r)
          × Delivered p o t now r)
  unfolding finalize_payment settle_payment
  finalize_payment_delivers db user_id payment_id now p o t keyed one p_found o_found unsettled
        t_row in_order =
      let row = Ensures_ok _ (require_order_of_payment-row db p) o_found in
      (
        complete_payment code fiscal_year db p o now,
        (
          rw (p_found, o_found, unsettled) refl,
          complete_payment-Delivered db p o t now keyed one
              (scalar-key (λ o. o.id) _ db.orders o keyed.orders row.0) t_row in_order,
        ),
      )
