-- ===== src/Payments.antt =====
-- `start_payment` and `finalize_payment` of app/services/payment_service.py, with their helpers.
pub mod Consistent
pub mod Replay
pub mod Delivery
pub mod Purchases
mod Tests
use ticketing_system.Prelude.{
  ℕ, suc, Bool, true, false, not, ◌&&◌, List, [], ◌∷◌, ◌++◌, Option, none, some, String, ltb, leb,
  ◌==◌, is_some, if◌then◌else◌,
}
use ticketing_system.Errors.{
  Result, ok, err, ◌>>=◌, ◌>>◌, raise_if, or_raise, on_integrity_error, not_found, conflict,
  invalid_input, integrity_error,
}
use ticketing_system.Table.{scalar, exists, select, update}
use ticketing_system.Schema.{
  Database, Order, TicketInstance, Ticket, Payment, PaymentMethod, OrderStatus, PaymentStatus,
  TicketStatus, is_status, is_open,
}
use ticketing_system.Booking.Orders.{is_users, save_order}
use ticketing_system.Booking.Cart.{invoice_of}
use ticketing_system.Booking.Checkout.{is_open_payment, with_status}
use ticketing_system.Invoices.{issue_invoice_for_order}

-- The two values in the text of `_redirect_url`.
pub record RedirectUrl : Type 0 where
  pub payment_id : ℕ
  pub ik : ℕ

abbrev pub redirect_url : Payment → ℕ → RedirectUrl
redirect_url payment key = record { payment_id = payment.id; ik = key }

pub require_payment_method : Database → ℕ → Result PaymentMethod
require_payment_method db pm_id =
    or_raise (scalar (λ m. m.id == pm_id) db.payment_methods) (not_found "Payment method not found")

pub require_active_payment_method : Database → ℕ → Result PaymentMethod
require_active_payment_method db pm_id = do
  pm ← require_payment_method db pm_id
  raise_if (not pm.is_active) (not_found "Payment method not found")
  ok pm

pub require_awaiting_order : Database → ℕ → ℕ → Result Order
require_awaiting_order db user_id now = do
  order ←
      or_raise (scalar (is_users user_id OrderStatus.awaiting_payment) db.orders)
        (not_found "No order awaiting payment")
  raise_if (ltb order.reserved_until now) (conflict "Reservation expired")
  raise_if (leb order.total_price 0) (invalid_input "Order total must be greater than zero")
  ok order

pub require_payment_for_user : Database → ℕ → ℕ → Result Payment
require_payment_for_user db payment_id user_id =
    or_raise
      (scalar
        (λ p.
          p.id == payment_id && exists (λ o. o.id == p.order_id && o.user_id == user_id) db.orders)
        db.payments)
      (not_found "Payment not found")

abbrev pub is_same_payload : Payment → Order → PaymentMethod → Bool
is_same_payload p order pm =
    p.order_id == order.id && (p.payment_method_id == pm.id && p.amount == order.total_price)

-- A flush of a new payment, under the unique idempotency key and uq_payments_order_active.
pub flush_payment : Database → Payment → Result Database
flush_payment db p = do
  raise_if (exists (λ q. q.idempotency_key == p.idempotency_key) db.payments) integrity_error
  raise_if (is_open p.status && exists (is_open_payment p.order_id) db.payments) integrity_error
  ok (record db {
    payments = db.payments ++ p ∷ [];
    next = record (db.next) { payment_id = suc db.next.payment_id };
  })

abbrev pub new_payment : Database → Order → PaymentMethod → ℕ → Payment
new_payment db order pm key = record {
  id = db.next.payment_id;
  order_id = order.id;
  payment_method_id = pm.id;
  amount = order.total_price;
  provider = "test";
  status = PaymentStatus.requires_action;
  idempotency_key = key;
  paid_at = none;
}

abbrev pub Started : Type 0
Started = Result ((Payment × Option RedirectUrl) × Database)

-- A payment with this key is already there.
pub replay_payment : Database → Order → PaymentMethod → ℕ → Payment → Started
replay_payment db order pm key p = do
  raise_if (not (is_same_payload p order pm))
      (conflict "Idempotency key reused for different payload")
  ok ((p, (if is_open p.status then some (redirect_url p key) else none)), db)

-- A payment of the order is in progress, under another key.
pub reuse_payment : Database → Order → PaymentMethod → Payment → Started
reuse_payment db order pm p =
    if p.payment_method_id == pm.id && p.amount == order.total_price
    then (if is_open p.status
        then ok ((p, some (redirect_url p p.idempotency_key)), db)
        else ok ((p, none), db))
    else err (conflict "Active payment already exists for this order")

pub create_payment : Database → Order → PaymentMethod → ℕ → Started
create_payment db order pm key = do
  let p = new_payment db order pm key
  db1 ← on_integrity_error (flush_payment db p) (conflict "Payment already exists for this order")
  ok ((p, some (redirect_url p key)), db1)

pub start_active : Database → Order → PaymentMethod → ℕ → Option Payment → Started
start_active db order pm key (some p) = reuse_payment db order pm p
start_active db order pm key none = create_payment db order pm key

pub start_keyed : Database → Order → PaymentMethod → ℕ → Option Payment → Started
start_keyed db order pm key (some p) = replay_payment db order pm key p
start_keyed db order pm key none =
    start_active db order pm key (scalar (is_open_payment order.id) db.payments)

-- `key` is the value of the normalised idempotency key.
pub start_payment : Database → ℕ → ℕ → ℕ → ℕ → Started
start_payment db user_id payment_method_id key now = do
  order ← require_awaiting_order db user_id now
  pm ← require_active_payment_method db payment_method_id
  start_keyed db order pm key (scalar (λ p. p.idempotency_key == key) db.payments)

abbrev pub save_payment : Database → Payment → Database
save_payment db p = record db { payments = update (λ q. q.id == p.id) (λ _. p) db.payments }

-- payment.order, with its status tested
pub require_order_of_payment : Database → Payment → Result Order
require_order_of_payment db p = do
  order ←
      or_raise (scalar (λ o. o.id == p.order_id) db.orders) (conflict "Order not awaiting payment")
  raise_if (not (is_status order.status OrderStatus.awaiting_payment))
      (conflict "Order not awaiting payment")
  ok order

abbrev pub is_final : PaymentStatus → Bool
is_final PaymentStatus.completed = true
is_final PaymentStatus.failed = true
is_final _ = false

-- if order.invoice_requested and order.invoice: issue_invoice_for_order
pub issue_requested_invoice : (ℕ → ℕ) → Database → Order → ℕ → Database
issue_requested_invoice fiscal_year db order now =
    if order.invoice_requested && is_some (invoice_of db order.id)
    then (issue_invoice_for_order fiscal_year db order now).1
    else db

-- Ticket codes are drawn at random (uuid4): `code` gives that of each key.
module _ (code : ℕ → String) where
  abbrev pub new_ticket : ℕ → ℕ → Ticket
  new_ticket id ticket_instance_id = record {
    id = id;
    ticket_instance_id = ticket_instance_id;
    code = code id;
    status = TicketStatus.active;
  }

  abbrev pub add_ticket : Database → TicketInstance → Database
  add_ticket db t = record db {
    tickets = db.tickets ++ new_ticket db.next.ticket_id t.id ∷ [];
    next = record (db.next) { ticket_id = suc db.next.ticket_id };
  }

  -- One ticket for each instance, the keys in turn.
  pub add_tickets : Database → List TicketInstance → Database
  add_tickets db [] = db
  add_tickets db (t ∷ ts) = add_tickets (add_ticket db t) ts

  pub issue_tickets : Database → ℕ → Database
  issue_tickets db order_id = add_tickets db (
      select
        (λ t. t.order_id == order_id && not (exists (λ k. k.ticket_instance_id == t.id) db.tickets))
        db.ticket_instances)

module _ (code : ℕ → String) (fiscal_year : ℕ → ℕ) where
  pub complete_payment : Database → Payment → Order → ℕ → Payment × Database
  complete_payment db p order now =
      let p' = record p { status = PaymentStatus.completed; paid_at = some now } in
      let order' = with_status OrderStatus.completed order in
      let db1 = save_order (save_payment db p') order' in
      (p', issue_tickets code (issue_requested_invoice fiscal_year db1 order' now) order.id)

  pub fail_payment : Database → Payment → Payment × Database
  fail_payment db p =
      let p' = record p { status = PaymentStatus.failed } in (p', save_payment db p')

  -- A payment that is COMPLETED or FAILED stays as it is.
  pub settle_payment : Database → Payment → Order → Bool → ℕ → Payment × Database
  settle_payment db p order success now =
      if is_final p.status
      then (p, db)
      else if success
      then complete_payment db p order now
      else fail_payment db p

  pub finalize_payment : Database → ℕ → ℕ → Bool → ℕ → Result (Payment × Database)
  finalize_payment db user_id payment_id success now = do
    p ← require_payment_for_user db payment_id user_id
    order ← require_order_of_payment db p
    ok (settle_payment db p order success now)
