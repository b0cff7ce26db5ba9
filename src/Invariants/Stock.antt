-- ===== src/Invariants/Stock.antt =====
-- The tickets of a general admission sector: those left and those that stand in an order.
use ticketing_system.Prelude.{
  ℕ, ◌+◌, ◌≡◌, Bool, true, false, ◌&&◌, List, Option, none, some, ◌==◌, is_some,
}
use ticketing_system.Table.{scalar, exists, count}
use ticketing_system.Schema.{Database, Sector, EventSector, EventTicketType, TicketInstance}

-- The instance's ticket type belongs to the event sector k.
abbrev pub in_sector : List EventTicketType → ℕ → TicketInstance → Bool
in_sector etts k t = exists (λ e. e.id == t.event_ticket_type_id && e.event_sector_id == k) etts

abbrev pub sold : Database → ℕ → ℕ
sold db k = count (in_sector db.event_ticket_types k) db.ticket_instances

abbrev pub tickets_of : Option EventSector → ℕ
tickets_of none = 0
tickets_of (some s) = elim s.tickets_left [ none ↦ 0 | some n ↦ n ]

abbrev pub left_in : List EventSector → ℕ → ℕ
left_in ss k = tickets_of (scalar (λ s. s.id == k) ss)

abbrev pub left : Database → ℕ → ℕ
left db = left_in db.event_sectors

abbrev pub stock : Database → ℕ → ℕ
stock db k = left db k + sold db k

abbrev pub is_ga_in : List Sector → ℕ → Bool
is_ga_in vs sector_id = exists (λ v. v.id == sector_id && v.is_ga) vs

abbrev pub counts_tickets : List Sector → Option EventSector → Bool
counts_tickets vs none = false
counts_tickets vs (some s) = is_some s.tickets_left && is_ga_in vs s.sector_id

-- The event sector is sold by count: its sector is general admission and its count is set.
abbrev pub is_general : List Sector → List EventSector → ℕ → Bool
is_general vs ss k = counts_tickets vs (scalar (λ s. s.id == k) ss)

-- Sectors that are sold by count stay so, and none of their tickets is lost or made up.
abbrev pub SameStock : Database → Database → Type 0
SameStock db db' =
    (k : ℕ)
    → is_general db.sectors db.event_sectors k ≡ true
    → (is_general db'.sectors db'.event_sectors k ≡ true) × (stock db' k ≡ stock db k)
