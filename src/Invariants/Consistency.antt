-- ===== src/Invariants/Consistency.antt =====
-- The integrity of the booking tables: keys, the unique indexes and the price of each cart.
use ticketing_system.Prelude.{ℕ, ◌≤◌, ◌<◌, ◌≡◌, true, List, some, ◌==◌, All}
use ticketing_system.Table.{count, sum, Unique}
use ticketing_system.Schema.{
  Database, Sector, EventSector, EventTicketType, Order, TicketInstance, is_counted,
}
use ticketing_system.Booking.Reserve.{has_active_order, same_seat}

-- What the invariants look at.
pub record Rows : Type 0 where
  pub sectors : List Sector
  pub event_sectors : List EventSector
  pub event_ticket_types : List EventTicketType
  pub orders : List Order
  pub ticket_instances : List TicketInstance
  pub next_order : ℕ
  pub next_instance : ℕ

abbrev pub rows : Database → Rows
rows db = record {
  sectors = db.sectors;
  event_sectors = db.event_sectors;
  event_ticket_types = db.event_ticket_types;
  orders = db.orders;
  ticket_instances = db.ticket_instances;
  next_order = db.next.order_id;
  next_instance = db.next.ticket_instance_id;
}

-- Primary keys are unique and below their sequence, and instances belong to orders.
pub record AreKeyed (db : Rows) : Type 0 where
  pub sectors : Unique (λ s. s.id) db.sectors
  pub event_sectors : Unique (λ s. s.id) db.event_sectors
  pub event_ticket_types : Unique (λ e. e.id) db.event_ticket_types
  pub orders : Unique (λ o. o.id) db.orders
  pub ticket_instances : Unique (λ t. t.id) db.ticket_instances
  pub orders_below : All (λ o. o.id < db.next_order) db.orders
  pub instances_below : All (λ t. t.id < db.next_instance) db.ticket_instances
  pub instances_ordered : All (λ t. t.order_id < db.next_order) db.ticket_instances

abbrev pub IsKeyed : Database → Type 0
IsKeyed db = AreKeyed (rows db)

-- The gross prices of what stands in the order.
abbrev pub cart_total : List TicketInstance → ℕ → ℕ
cart_total ts order_id = sum (λ t. t.order_id == order_id) (λ t. t.price_gross_snapshot) ts

-- An order that is not cancelled costs what its tickets cost.
abbrev pub IsPriced : List TicketInstance → Order → Type 0
IsPriced ts o = is_counted o.status ≡ true → o.total_price ≡ cart_total ts o.id

-- uq_orders_user_active
abbrev pub HasOneCart : List Order → Type 0
HasOneCart os = (user_id : ℕ) → count (has_active_order user_id) os ≤ 1

-- uq_event_seat
abbrev pub HasOneHolder : List TicketInstance → Type 0
HasOneHolder ts = (event_id seat_id : ℕ) → count (same_seat event_id (some seat_id)) ts ≤ 1

pub record AreConsistent (db : Rows) : Type 0 where
  pub keyed : AreKeyed db
  pub active : HasOneCart db.orders
  pub seated : HasOneHolder db.ticket_instances
  pub priced : All (IsPriced db.ticket_instances) db.orders

abbrev pub IsConsistent : Database → Type 0
IsConsistent db = AreConsistent (rows db)
