-- ===== src/Schema/Sales.antt =====
-- What is bought: app/domain/booking/models.py and app/domain/payments/models.py.
-- An invoice number is its text, as code points; an idempotency key is the 128-bit value of its UUID.
use ticketing_system.Prelude.{ℕ, ◌^◌, Bool, String, Option, List}
use ticketing_system.Schema.Statuses.{OrderStatus, PaymentStatus, TicketStatus, InvoiceType}

pub record Order : Type 0 where
  pub id : ℕ
  pub user_id : ℕ
  pub total_price : ℕ
  pub reserved_until : ℕ
  pub status : OrderStatus
  pub invoice_requested : Bool

pub record TicketInstance : Type 0 where
  pub id : ℕ
  pub event_ticket_type_id : ℕ
  pub seat_id : Option ℕ
  pub event_id : ℕ
  pub order_id : ℕ
  pub price_net_snapshot : ℕ
  pub vat_rate_snapshot : ℕ
  pub price_gross_snapshot : ℕ
  pub ticket_type_name_snapshot : String

pub record TicketHolder : Type 0 where
  pub id : ℕ
  pub ticket_instance_id : ℕ
  pub first_name : String
  pub last_name : String
  pub birth_date : ℕ
  pub identification_number : String

pub record Ticket : Type 0 where
  pub id : ℕ
  pub ticket_instance_id : ℕ
  pub code : String
  pub status : TicketStatus

pub record Invoice : Type 0 where
  pub id : ℕ
  pub invoice_number : Option (List ℕ)
  pub order_id : ℕ
  pub invoice_type : InvoiceType
  pub full_name : Option String
  pub company_name : Option String
  pub tax_id : Option String
  pub street : String
  pub postal_code : String
  pub city : String
  pub country_code : String
  pub issued_at : Option ℕ

pub record PaymentMethod : Type 0 where
  pub id : ℕ
  pub name : String
  pub is_active : Bool

pub record Payment : Type 0 where
  pub id : ℕ
  pub order_id : ℕ
  pub payment_method_id : ℕ
  pub amount : ℕ
  pub provider : String
  pub status : PaymentStatus
  pub idempotency_key : ℕ
  pub paid_at : Option ℕ

-- Numeric(10, 2): eight digits before the point, in cents.
abbrev pub price_limit : ℕ
price_limit = 10 ^ 10

-- Numeric(3, 2): one digit before the point, in hundredths.
abbrev pub rate_limit : ℕ
rate_limit = 10 ^ 3

-- A column of type Integer.
abbrev pub integer_limit : ℕ
integer_limit = 2 ^ 31
