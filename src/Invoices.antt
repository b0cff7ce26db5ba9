-- ===== src/Invoices.antt =====
-- The numbering of invoices in app/services/invoices_service.py.
pub mod Digits
pub mod Rows
pub mod Numbers
mod Tests
use ticketing_system.Prelude.{
  ℕ, suc, ◌+◌, List, [], ◌∷◌, ◌++◌, Option, none, some, ◌==◌, if◌then◌else◌,
}
use ticketing_system.Schema.{Database, Order, Invoice}
use ticketing_system.Booking.Cart.{invoice_of, save_invoice}
use Digits.{decimal, padded}

-- f"{year}-{n:08d}"
pub format_number : ℕ → ℕ → List ℕ
format_number year n = decimal year ++ b'-' ∷ padded 8 n

-- The row of the year in invoice_counters, 0 where there is none.
pub counter_of : ℕ → List (ℕ × ℕ) → ℕ
counter_of year [] = 0
counter_of year ((y, c) ∷ rows) = if y == year then c else counter_of year rows

-- insert(invoice_counters).values(year, 1).on_conflict_do_update(counter + 1)
pub count_up : ℕ → List (ℕ × ℕ) → List (ℕ × ℕ)
count_up year [] = (year, 1) ∷ []
count_up year ((y, c) ∷ rows) = if y == year then (y, c + 1) ∷ rows else (y, c) ∷ count_up year rows

-- The year in Europe/Warsaw of a UTC time comes from the time zone database.
module _ (fiscal_year : ℕ → ℕ) where
  pub next_invoice_number : Database → ℕ → List ℕ × Database
  next_invoice_number db paid_at =
      let year = fiscal_year paid_at in
      let counters = count_up year db.invoice_counters in
      (format_number year (counter_of year counters), record db { invoice_counters = counters })

  abbrev issued_since : ℕ → Option ℕ → Option ℕ
  issued_since paid_at none = some paid_at
  issued_since paid_at (some at_time) = some at_time

  -- A number is drawn for an invoice that has none.
  pub number_invoice : Database → ℕ → Invoice → Option (List ℕ) → Invoice × Database
  number_invoice db paid_at invoice (some n) = (invoice, save_invoice db invoice)
  number_invoice db paid_at invoice none =
      let (n, db1) = next_invoice_number db paid_at in
      let invoice' = record invoice { invoice_number = some n } in
      (invoice', save_invoice db1 invoice')

  pub issue_invoice : Database → ℕ → Option Invoice → Option Invoice × Database
  issue_invoice db paid_at none = (none, db)
  issue_invoice db paid_at (some invoice) =
      let dated = record invoice { issued_at = issued_since paid_at invoice.issued_at } in
      let (invoice', db1) = number_invoice db paid_at dated invoice.invoice_number in
      (some invoice', db1)

  pub issue_invoice_for_order : Database → Order → ℕ → Option Invoice × Database
  issue_invoice_for_order db order paid_at = issue_invoice db paid_at (invoice_of db order.id)
