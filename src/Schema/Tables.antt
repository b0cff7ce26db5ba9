-- ===== src/Schema/Tables.antt =====
-- The database of one deployment: its tables, and for each table with generated keys
-- (`Identity(always=True)`) the next key of its sequence.
use ticketing_system.Prelude.{ℕ, List}
use ticketing_system.Schema.People.{Organizer, Account, AuthRefreshSession, Address}
use ticketing_system.Schema.Catalog.{
  Venue, Event, Sector, Seat, EventSector, TicketType, EventTicketType,
}
use ticketing_system.Schema.Sales.{
  Order, TicketInstance, TicketHolder, Ticket, Invoice, PaymentMethod, Payment,
}

-- The part of the keys: one sequence per table.
pub record Sequences : Type 0 where
  pub user_id : ℕ
  pub address_id : ℕ
  pub organizer_id : ℕ
  pub venue_id : ℕ
  pub sector_id : ℕ
  pub seat_id : ℕ
  pub event_id : ℕ
  pub event_sector_id : ℕ
  pub event_ticket_type_id : ℕ
  pub ticket_type_id : ℕ
  pub payment_method_id : ℕ
  pub order_id : ℕ
  pub ticket_instance_id : ℕ
  pub ticket_holder_id : ℕ
  pub ticket_id : ℕ
  pub invoice_id : ℕ
  pub payment_id : ℕ

pub record Database : Type 0 where
  pub accounts : List Account
  pub sessions : List AuthRefreshSession
  pub addresses : List Address
  pub organizers : List Organizer
  pub venues : List Venue
  pub events : List Event
  pub sectors : List Sector
  pub seats : List Seat
  pub event_sectors : List EventSector
  pub ticket_types : List TicketType
  pub event_ticket_types : List EventTicketType
  pub orders : List Order
  pub ticket_instances : List TicketInstance
  pub ticket_holders : List TicketHolder
  pub tickets : List Ticket
  pub invoices : List Invoice
  -- invoice_counters: the fiscal year and its counter
  pub invoice_counters : List (ℕ × ℕ)
  pub payment_methods : List PaymentMethod
  pub payments : List Payment
  pub next : Sequences
