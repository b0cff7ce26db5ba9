-- ===== src/Invoices/Rows.antt =====
-- Issuing an invoice touches the invoices and their counters alone.
use ticketing_system.Prelude.{ℕ, ◌≡◌, refl, List, Option, none, some}
use ticketing_system.Schema.{Database, Order, Invoice}
use ticketing_system.Invoices.{
  next_invoice_number, number_invoice, issue_invoice, issue_invoice_for_order,
}

-- The database with other invoices and counters.
abbrev pub with_invoices : Database → List Invoice → List (ℕ × ℕ) → Database
with_invoices db is cs = record db { invoices = is; invoice_counters = cs }

abbrev pub IsInvoicing : Database → Database → Type 0
IsInvoicing db db' = db' ≡ with_invoices db db'.invoices db'.invoice_counters

module _ (fiscal_year : ℕ → ℕ) where
  number_invoice-IsInvoicing :
      (db : Database) (paid_at : ℕ) (i : Invoice) (n : Option (List ℕ))
      → IsInvoicing db (number_invoice fiscal_year db paid_at i n).1
  unfolding number_invoice next_invoice_number
  number_invoice-IsInvoicing db paid_at i none = refl
  number_invoice-IsInvoicing db paid_at i (some n) = refl

  issue_invoice-IsInvoicing :
      (db : Database) (paid_at : ℕ) (i : Option Invoice)
      → IsInvoicing db (issue_invoice fiscal_year db paid_at i).1
  unfolding issue_invoice
  issue_invoice-IsInvoicing db paid_at none = refl
  issue_invoice-IsInvoicing db paid_at (some i) =
      number_invoice-IsInvoicing db paid_at _ i.invoice_number

  pub issue_invoice_for_order-IsInvoicing :
      (db : Database) (o : Order) (paid_at : ℕ)
      → IsInvoicing db (issue_invoice_for_order fiscal_year db o paid_at).1
  unfolding issue_invoice_for_order
  issue_invoice_for_order-IsInvoicing db o paid_at = issue_invoice-IsInvoicing db paid_at _
