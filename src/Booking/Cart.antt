-- ===== src/Booking/Cart.antt =====
-- The cart of app/services/booking_service.py: `remove_ticket_instance`, `upsert_ticket_holder`,
-- `set_invoice_requested` and `upsert_invoice`.
pub mod Removal
pub mod Holder
pub mod Purchases
pub mod Consistent
pub mod Stock
use ticketing_system.Prelude.{
  ℕ, suc, Bool, not, ◌&&◌, ◌++◌, [], ◌∷◌, Option, none, some, String, ltb, ◌==◌, if◌then◌else◌,
}
use ticketing_system.Prelude.Int.{pos, neg}
use ticketing_system.Errors.{
  Result, ok, ◌>>=◌, ◌>>◌, raise_if, or_raise, not_found, invalid_input, integrity_error,
  attribute_error,
}
use ticketing_system.Table.{scalar, exists, update, delete}
use ticketing_system.Schema.{
  Database, Order, EventTicketType, TicketInstance, TicketHolder, Invoice, InvoiceType, OrderStatus,
}
use ticketing_system.Booking.Orders.{is_users, require_order, ga_increment, bump_total, save_order}
use ticketing_system.Booking.Reserve.{sector_of}

pub get_user_pending_order : Database → ℕ → Result Order
get_user_pending_order db user_id =
    require_order db user_id OrderStatus.pending (not_found "No pending order found")

-- The joined select of `remove_ticket_instance`; on None its attribute access raises.
pub ticket_type_of : Database → TicketInstance → Result EventTicketType
ticket_type_of db t =
    or_raise
      (scalar
        (λ e.
          e.id == t.event_ticket_type_id
          && exists (λ s. s.id == e.event_sector_id) db.event_sectors)
        db.event_ticket_types)
      attribute_error

-- db.delete(ticket_instance) and db.flush(). With `nullifies` the session first sets the foreign
-- key of a loaded holder or ticket to NULL, which their columns refuse; without it the database
-- deletes the holder with the instance (ON DELETE CASCADE) and refuses an issued ticket (RESTRICT).
pub delete_ticket_instance : Bool → Database → TicketInstance → Result Database
delete_ticket_instance nullifies db t = do
  raise_if (nullifies && exists (λ h. h.ticket_instance_id == t.id) db.ticket_holders)
      integrity_error
  raise_if (exists (λ k. k.ticket_instance_id == t.id) db.tickets) integrity_error
  ok (record db {
    ticket_instances = delete (λ s. s.id == t.id) db.ticket_instances;
    ticket_holders = delete (λ h. h.ticket_instance_id == t.id) db.ticket_holders;
  })

-- The instance's sector gets its ticket back if it is general admission.
abbrev pub return_to_sector : Bool → Database → ℕ → Database
return_to_sector is_ga db event_sector_id = if is_ga then ga_increment db event_sector_id 1 else db

pub remove_ticket_instance : Bool → Database → ℕ → ℕ → Result (Unit {0} × Database)
remove_ticket_instance nullifies db user_id ticket_instance_id = do
  t ←
      or_raise (scalar (λ t. t.id == ticket_instance_id) db.ticket_instances)
        (not_found "Ticket instance not found")
  order ← require_order db user_id OrderStatus.pending (not_found "Item not found in order")
  raise_if (not (order.id == t.order_id)) (not_found "Item not found in order")
  ett ← ticket_type_of db t
  sectors ← sector_of db ett
  let db1 = return_to_sector sectors.1.is_ga db ett.event_sector_id
  let db2 = save_order db1 (bump_total order (neg (pos t.price_gross_snapshot)))
  db3 ← delete_ticket_instance nullifies db2 t
  ok (tt, db3)

-- TicketHolderUpsertDTO, after validation.
pub record HolderData : Type 0 where
  pub first_name : String
  pub last_name : String
  pub birth_date : ℕ
  pub identification_number : String

abbrev pub write_holder : HolderData → TicketHolder → TicketHolder
write_holder schema h = record h {
  first_name = schema.first_name;
  last_name = schema.last_name;
  birth_date = schema.birth_date;
  identification_number = schema.identification_number;
}

abbrev pub new_holder : ℕ → ℕ → HolderData → TicketHolder
new_holder id ticket_instance_id schema = record {
  id = id;
  ticket_instance_id = ticket_instance_id;
  first_name = schema.first_name;
  last_name = schema.last_name;
  birth_date = schema.birth_date;
  identification_number = schema.identification_number;
}

-- The holder of the instance is changed, or one is added.
pub put_holder :
    Database → TicketInstance → HolderData → Option TicketHolder → TicketHolder × Database
put_holder db t schema (some h) =
    let h' = write_holder schema h in
    (h', record db { ticket_holders = update (λ k. k.id == h.id) (λ _. h') db.ticket_holders })
put_holder db t schema none =
    let h = new_holder db.next.ticket_holder_id t.id schema in
    (
      h,
      record db {
        ticket_holders = db.ticket_holders ++ h ∷ [];
        next = record (db.next) { ticket_holder_id = suc db.next.ticket_holder_id };
      },
    )

-- `today` is the database's date, which chk_holder_birth_not_future tests at the flush.
pub upsert_ticket_holder : Database → ℕ → HolderData → ℕ → ℕ → Result (TicketHolder × Database)
upsert_ticket_holder db ticket_instance_id schema user_id today = do
  t ←
      or_raise
        (scalar
          (λ t.
            t.id == ticket_instance_id
            && exists (λ o. o.id == t.order_id && is_users user_id OrderStatus.pending o) db.orders)
          db.ticket_instances)
        (not_found "Ticket instance not found in your order")
  raise_if (not (exists (λ e. e.id == t.event_id && e.holder_data_required) db.events))
      (invalid_input "Holder data not required for this event")
  raise_if (ltb today schema.birth_date) integrity_error
  ok (put_holder db t schema (scalar (λ h. h.ticket_instance_id == t.id) db.ticket_holders))

pub set_invoice_requested : Database → Bool → ℕ → Result (Unit {0} × Database)
set_invoice_requested db invoice_requested user_id = do
  order ← require_order db user_id OrderStatus.pending (not_found "No pending order found")
  ok (tt, save_order db (record order { invoice_requested = invoice_requested }))

-- InvoiceUpsertDTO, after validation.
pub record InvoiceData : Type 0 where
  pub invoice_type : InvoiceType
  pub full_name : Option String
  pub company_name : Option String
  pub tax_id : Option String
  pub street : String
  pub postal_code : String
  pub city : String
  pub country_code : String

-- model_dump(exclude_none=True) drops the keys whose value is None, so an old value stays.
abbrev pub keep_old {ℓ} : {A : Type ℓ} → Option A → Option A → Option A
keep_old none old = old
keep_old (some new) old = some new

abbrev pub write_invoice : InvoiceData → Invoice → Invoice
write_invoice schema i = record i {
  invoice_type = schema.invoice_type;
  full_name = keep_old schema.full_name i.full_name;
  company_name = keep_old schema.company_name i.company_name;
  tax_id = keep_old schema.tax_id i.tax_id;
  street = schema.street;
  postal_code = schema.postal_code;
  city = schema.city;
  country_code = schema.country_code;
}

abbrev pub new_invoice : ℕ → ℕ → InvoiceData → Invoice
new_invoice id order_id schema = record {
  id = id;
  invoice_number = none;
  order_id = order_id;
  invoice_type = schema.invoice_type;
  full_name = schema.full_name;
  company_name = schema.company_name;
  tax_id = schema.tax_id;
  street = schema.street;
  postal_code = schema.postal_code;
  city = schema.city;
  country_code = schema.country_code;
  issued_at = none;
}

-- order.invoice
abbrev pub invoice_of : Database → ℕ → Option Invoice
invoice_of db order_id = scalar (λ i. i.order_id == order_id) db.invoices

abbrev pub save_invoice : Database → Invoice → Database
save_invoice db invoice = record db {
  invoices = update (λ i. i.id == invoice.id) (λ _. invoice) db.invoices;
}

pub put_invoice : Database → ℕ → InvoiceData → Option Invoice → Invoice × Database
put_invoice db order_id schema (some i) =
    let i' = write_invoice schema i in (i', save_invoice db i')
put_invoice db order_id schema none =
    let i = new_invoice db.next.invoice_id order_id schema in
    (
      i,
      record db {
        invoices = db.invoices ++ i ∷ [];
        next = record (db.next) { invoice_id = suc db.next.invoice_id };
      },
    )

pub upsert_invoice : Database → InvoiceData → ℕ → Result (Invoice × Database)
upsert_invoice db schema user_id = do
  order ← require_order db user_id OrderStatus.pending (not_found "No pending order found")
  raise_if (not order.invoice_requested) (invalid_input "Invoice not requested for this order")
  ok (put_invoice db order.id schema (invoice_of db order.id))
