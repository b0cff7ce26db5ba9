-- ===== src/Listings/Invoices.antt =====
-- The invoices that are listed, and the lines and totals of one: app/services/invoices_service.py.
pub mod Lines
pub mod Totals
pub mod Agreement
mod Tests
use ticketing_system.Prelude.{
  ℕ, ◌+◌, Bool, true, false, ◌&&◌, List, [], ◌∷◌, ◌++◌, Option, none, some, String, ◌==◌, is_some,
  equals, if◌then◌else◌, map,
}
use ticketing_system.Prelude.Int.{ℤ, sub_ℕ}
use ticketing_system.Prelude.Strings.{same_string}
use ticketing_system.Prelude.Text.{Text}
use ticketing_system.Errors.{Result, or_raise, not_found, on_ok}
use ticketing_system.Table.{scalar, exists, select, count, sum}
use ticketing_system.Schema.{
  Database, Order, TicketInstance, Invoice, InvoiceType, Event, Account, User,
}
use ticketing_system.Pagination.{Page, paginate, page_of, order_by}
use ticketing_system.Listings.Joins.{joined, ◌>>=◌, keep_some, if_given, latest_first, same_email}

-- InvoiceListItemDTO, with the columns that the filters read.
pub record InvoiceRow : Type 0 where
  pub id : ℕ
  pub invoice_number : Option (List ℕ)
  pub order_id : ℕ
  pub issued_at : Option ℕ
  pub items_count : ℕ
  pub total_net : ℕ
  pub total_vat : ℤ
  pub total_gross : ℕ
  pub user_id : ℕ
  pub invoice_type : InvoiceType

abbrev pub stands_in : ℕ → TicketInstance → Bool
stands_in order_id t = t.order_id == order_id

-- The sums of _ti_agg_subquery.
abbrev pub net_of : List TicketInstance → ℕ → ℕ
net_of ts order_id = sum (stands_in order_id) (λ t. t.price_net_snapshot) ts

abbrev pub gross_of : List TicketInstance → ℕ → ℕ
gross_of ts order_id = sum (stands_in order_id) (λ t. t.price_gross_snapshot) ts

-- The row of an invoice with its order and the order's sums; an order without tickets has none.
abbrev pub row_of : Database → Invoice → Order → Option InvoiceRow
row_of db i o =
    if exists (stands_in o.id) db.ticket_instances
    then some (record {
      id = i.id;
      invoice_number = i.invoice_number;
      order_id = i.order_id;
      issued_at = i.issued_at;
      items_count = count (stands_in o.id) db.ticket_instances;
      total_net = net_of db.ticket_instances o.id;
      total_vat = sub_ℕ (gross_of db.ticket_instances o.id) (net_of db.ticket_instances o.id);
      total_gross = gross_of db.ticket_instances o.id;
      user_id = o.user_id;
      invoice_type = i.invoice_type;
    })
    else none

-- _invoice_base_select
pub invoice_row : Database → Invoice → Option InvoiceRow
invoice_row db i = scalar (λ o. o.id == i.order_id) db.orders >>= row_of db i

abbrev pub time_of : Option ℕ → ℕ
time_of none = 0
time_of (some t) = t

-- Invoice.issued_at.desc().nulls_last(), Invoice.id, of rows that are issued
pub issued_before : InvoiceRow → InvoiceRow → Bool
issued_before r s = latest_first (time_of r.issued_at) r.id (time_of s.issued_at) s.id

abbrev pub is_issued : InvoiceRow → Bool
is_issued r = is_some r.issued_at

abbrev pub is_users_row : ℕ → InvoiceRow → Bool
is_users_row user_id r = r.user_id == user_id

pub list_user_invoices : Database → ℕ → ℕ → ℕ → Page InvoiceRow
unfolding invoice_row issued_before
list_user_invoices db user_id page page_size =
    page_of (λ r. r)
      (paginate issued_before (λ r. r.id) (is_users_row user_id ∷ is_issued ∷ []) page page_size
        (joined (invoice_row db) db.invoices))
      page page_size

-- AdminInvoicesQueryDTO
pub record AdminInvoicesQuery : Type 0 where
  pub user_id : Option ℕ
  pub email : Option Text
  pub invoice_type : Option InvoiceType
  pub page : ℕ
  pub page_size : ℕ

-- AdminInvoiceListItemDTO
pub record AdminInvoiceRow : Type 0 where
  pub row : InvoiceRow
  pub user_email : Text

abbrev pub admin_row_of : Database → InvoiceRow → Option AdminInvoiceRow
admin_row_of db r = scalar (λ a. a.user.id == r.user_id) db.accounts >>= λ (a : Account).
    some (record { row = r; user_email = a.email })

pub admin_invoice_row : Database → Invoice → Option AdminInvoiceRow
admin_invoice_row db i = invoice_row db i >>= admin_row_of db

module _ where
  -- Invoice.invoice_type == t
  abbrev pub is_type : InvoiceType → InvoiceType → Bool
  is_type InvoiceType.person InvoiceType.person = true
  is_type InvoiceType.company InvoiceType.company = true
  is_type _ _ = false

pub list_admin_invoices : Database → AdminInvoicesQuery → Page AdminInvoiceRow
list_admin_invoices db query =
    page_of (λ r. r)
      (paginate (λ r s. issued_before r.row s.row) (λ r. r.row.id)
        ((λ r. is_issued r.row)
          ∷ (if_given query.user_id (λ u r. r.row.user_id == u)
              ++ (if_given query.email (λ e r. same_email e r.user_email)
                  ++ if_given query.invoice_type (λ t r. is_type r.row.invoice_type t))))
        query.page query.page_size (joined (admin_invoice_row db) db.invoices))
      query.page query.page_size

-- _get_invoice_and_order_id: the invoice with its order, under the extra filters.
abbrev pub is_open_to : List (Order → Bool) → Order → Bool
is_open_to [] o = true
is_open_to (f ∷ fs) o = f o && is_open_to fs o

abbrev pub fits_invoice : Database → ℕ → List (Order → Bool) → Invoice → Bool
fits_invoice db invoice_id filters i =
    i.id == invoice_id
    && (is_some i.issued_at && exists (λ o. o.id == i.order_id && is_open_to filters o) db.orders)

pub get_invoice_and_order_id : Database → ℕ → List (Order → Bool) → Result (Invoice × ℕ)
get_invoice_and_order_id db invoice_id filters =
    or_raise
      (scalar (fits_invoice db invoice_id filters) db.invoices >>= λ (i : Invoice).
        some (i, i.order_id))
      (not_found "Invoice not found")

-- The columns of GROUP BY.
pub record LineKey : Type 0 where
  pub event_name : String
  pub ticket_type_name : String
  pub vat_rate : ℕ
  pub unit_price_net : ℕ
  pub unit_price_gross : ℕ

abbrev pub same_key : LineKey → LineKey → Bool
same_key k l =
    same_string k.event_name l.event_name
    && (same_string k.ticket_type_name l.ticket_type_name
        && (k.vat_rate == l.vat_rate
            && (k.unit_price_net == l.unit_price_net && k.unit_price_gross == l.unit_price_gross)))

-- A row of the grouped query.
pub record Group : Type 0 where
  pub key : LineKey
  pub quantity : ℕ
  pub line_net : ℕ
  pub line_gross : ℕ

abbrev pub key_of : TicketInstance → Event → LineKey
key_of t e = record {
  event_name = e.name;
  ticket_type_name = t.ticket_type_name_snapshot;
  vat_rate = t.vat_rate_snapshot;
  unit_price_net = t.price_net_snapshot;
  unit_price_gross = t.price_gross_snapshot;
}

abbrev pub one_of : LineKey → Group
one_of k = record {
  key = k;
  quantity = 1;
  line_net = k.unit_price_net;
  line_gross = k.unit_price_gross;
}

abbrev pub one_more : LineKey → Group → Group
one_more k g = record g {
  quantity = g.quantity + 1;
  line_net = g.line_net + k.unit_price_net;
  line_gross = g.line_gross + k.unit_price_gross;
}

-- count and sums, one group for each key
pub add_to_groups : LineKey → List Group → List Group
add_to_groups k [] = one_of k ∷ []
add_to_groups k (g ∷ gs) = if same_key g.key k then one_more k g ∷ gs else g ∷ add_to_groups k gs

pub group_by : List LineKey → List Group
unfolding add_to_groups
group_by [] = []
group_by (k ∷ ks) = add_to_groups k (group_by ks)

-- The tickets of the order joined with their events.
pub order_lines : Database → ℕ → List LineKey
order_lines db order_id =
    joined
      (λ (t : TicketInstance).
        scalar (λ e. e.id == t.event_id) db.events >>= λ (e : Event). some (key_of t e))
      (select (stands_in order_id) db.ticket_instances)

-- InvoiceLineDTO
pub record InvoiceLine : Type 0 where
  pub group : Group
  pub line_vat : ℤ

abbrev pub line_of : Group → InvoiceLine
line_of g = record { group = g; line_vat = sub_ℕ g.line_gross g.line_net }

-- The running totals of the loop over the lines.
pub total_lines : ℕ → ℕ → List Group → ℕ × ℕ
total_lines net gross [] = (net, gross)
total_lines net gross (g ∷ gs) = total_lines (net + g.line_net) (gross + g.line_gross) gs

-- InvoiceDetailsDTO
pub record InvoiceDetails : Type 0 where
  pub invoice : Invoice
  pub order_id : ℕ
  pub items : List InvoiceLine
  pub total_net : ℕ
  pub total_gross : ℕ
  pub total_vat : ℤ

-- `collated` is the database's order of texts.
module _ (collated : String → String → Bool) where
  abbrev pub line_before : Group → Group → Bool
  line_before g h =
      if same_string g.key.event_name h.key.event_name
      then collated g.key.ticket_type_name h.key.ticket_type_name
      else collated g.key.event_name h.key.event_name

  pub build_invoice_details : Database → Invoice → ℕ → InvoiceDetails
  build_invoice_details db invoice order_id =
      let lines = order_by line_before (group_by (order_lines db order_id)) in
      let (net, gross) = total_lines 0 0 lines in
      record {
        invoice = invoice;
        order_id = order_id;
        items = map line_of lines;
        total_net = net;
        total_gross = gross;
        total_vat = sub_ℕ gross net;
      }

  abbrev details_of : Database → Invoice × ℕ → InvoiceDetails
  details_of db (invoice, order_id) = build_invoice_details db invoice order_id

  pub get_user_invoice_details : Database → ℕ → ℕ → Result InvoiceDetails
  get_user_invoice_details db user_id invoice_id =
      on_ok (details_of db)
        (get_invoice_and_order_id db invoice_id ((λ o. o.user_id == user_id) ∷ []))

  pub get_invoice_details_admin : Database → ℕ → Result InvoiceDetails
  get_invoice_details_admin db invoice_id =
      on_ok (details_of db) (get_invoice_and_order_id db invoice_id [])
