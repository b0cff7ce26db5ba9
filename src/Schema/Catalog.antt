-- ===== src/Schema/Catalog.antt =====
-- What is sold: app/domain/events/models.py, venues/models.py, allocation/models.py and
-- pricing/models.py. Columns that no service reads or writes on its own are left out.
use ticketing_system.Prelude.{ℕ, Bool, String, Option}
use ticketing_system.Schema.Statuses.{EventStatus}

pub record Venue : Type 0 where
  pub id : ℕ
  pub name : String
  pub address_id : ℕ

pub record Event : Type 0 where
  pub id : ℕ
  pub name : String
  pub organizer_id : ℕ
  pub venue_id : ℕ
  pub event_start : ℕ
  pub event_end : ℕ
  pub sales_start : ℕ
  pub sales_end : ℕ
  pub max_tickets_per_user : Option ℕ
  pub age_restriction : Option ℕ
  pub holder_data_required : Bool
  pub description : Option String
  pub status : EventStatus

pub record Sector : Type 0 where
  pub id : ℕ
  pub venue_id : ℕ
  pub name : String
  pub is_ga : Bool
  pub base_capacity : ℕ

pub record Seat : Type 0 where
  pub id : ℕ
  pub sector_id : ℕ
  pub row : ℕ
  pub number : ℕ

pub record EventSector : Type 0 where
  pub id : ℕ
  pub event_id : ℕ
  pub sector_id : ℕ
  pub tickets_left : Option ℕ

pub record TicketType : Type 0 where
  pub id : ℕ
  pub name : String

pub record EventTicketType : Type 0 where
  pub id : ℕ
  pub event_sector_id : ℕ
  pub ticket_type_id : ℕ
  pub price_net : ℕ
  pub vat_rate : ℕ
