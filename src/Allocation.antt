-- ===== src/Allocation.antt =====
-- The sectors of an event: app/services/event_sectors_service.py but for the bulk creation.
pub mod Capacity
mod Tests
use ticketing_system.Prelude.{
  ℕ, suc, Bool, not, ◌&&◌, [], ◌∷◌, ◌++◌, Option, none, some, ◌==◌, if◌then◌else◌,
}
use ticketing_system.Errors.{
  Result, ok, ◌>>=◌, ◌>>◌, raise_if, or_raise, on_integrity_error, not_found, conflict,
  invalid_input, integrity_error,
}
use ticketing_system.Table.{scalar, exists, delete}
use ticketing_system.Schema.{Database, Event, Sector, EventSector}

pub ensure_venue_match : Event → Sector → Result (Unit {0})
ensure_venue_match event sector =
    raise_if (not (event.venue_id == sector.venue_id))
      (invalid_input "Sector does not belong to event venue")

unfoldable pub get_sector : Database → ℕ → Result Sector
get_sector db sector_id =
    or_raise (scalar (λ s. s.id == sector_id) db.sectors) (not_found "Sector not found")

-- EventSector.event_id == event_id, EventSector.sector_id == sector_id
abbrev pub is_pair : ℕ → ℕ → EventSector → Bool
is_pair event_id sector_id s = s.event_id == event_id && s.sector_id == sector_id

pub get_event_sector : Database → ℕ → ℕ → Result EventSector
get_event_sector db event_id sector_id =
    or_raise (scalar (is_pair event_id sector_id) db.event_sectors)
      (not_found "Event sector not found")

-- data['tickets_left'] is set for general admission alone.
abbrev pub new_event_sector : ℕ → Event → Sector → EventSector
new_event_sector id event sector = record {
  id = id;
  event_id = event.id;
  sector_id = sector.id;
  tickets_left = if sector.is_ga then some sector.base_capacity else none;
}

-- A flush of a new event sector, under uq_event_sector.
pub flush_event_sector : Database → EventSector → Result Database
flush_event_sector db s = do
  raise_if (exists (is_pair s.event_id s.sector_id) db.event_sectors) integrity_error
  ok (record db {
    event_sectors = db.event_sectors ++ s ∷ [];
    next = record (db.next) { event_sector_id = suc db.next.event_sector_id };
  })

pub create_event_sector : Database → ℕ → Event → Result (EventSector × Database)
create_event_sector db sector_id event = do
  sector ← get_sector db sector_id
  ensure_venue_match event sector
  let event_sector = new_event_sector db.next.event_sector_id event sector
  db1 ←
      on_integrity_error (flush_event_sector db event_sector)
        (conflict "Sector already assigned to this event")
  ok (event_sector, db1)

-- A ticket type of the sector forbids the deletion: its foreign key is neither deleted nor emptied.
pub flush_deletion : Database → EventSector → Result Database
flush_deletion db s = do
  raise_if (exists (λ e. e.event_sector_id == s.id) db.event_ticket_types) integrity_error
  ok (record db { event_sectors = delete (λ r. r.id == s.id) db.event_sectors })

pub delete_event_sector : Database → ℕ → ℕ → Result (Unit {0} × Database)
delete_event_sector db event_id sector_id = do
  event_sector ← get_event_sector db event_id sector_id
  db1 ← on_integrity_error (flush_deletion db event_sector) (conflict "Event sector in use")
  ok (tt, db1)
