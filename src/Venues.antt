-- ===== src/Venues.antt =====
-- app/services/venue_service.py but for the lists, and app/domain/venues/crud.py.
pub mod Plan
mod Sectors
mod Seats
pub mod Layout
pub mod Bulk
pub mod Deletion
mod Tests
use ticketing_system.Prelude.{
  ℕ, suc, ◌<◌, Bool, true, false, not, ◌&&◌, List, [], ◌∷◌, ◌++◌, Option, none, some, String, ltb,
  ◌==◌, equals, if◌then◌else◌,
}
use ticketing_system.Prelude.Strings.{same_string}
use ticketing_system.Errors.{
  Result, ok, ◌>>=◌, ◌>>◌, raise_if, or_raise, on_integrity_error, not_found, conflict,
  invalid_input, integrity_error, data_error, get_db,
}
use ticketing_system.Table.{scalar, exists, update, delete, select}
use ticketing_system.Schema.{Database, Venue, Sector, Seat, TicketInstance, integer_limit}
use ticketing_system.Addresses.{get_address}
use ticketing_system.Allocation.{get_sector}
use ticketing_system.Events.{get_venue, or_old}

-- The schemas after validation.
pub record VenueCreate : Type 0 where
  pub name : String
  pub address_id : ℕ

pub record SectorCreate : Type 0 where
  pub name : String
  pub base_capacity : ℕ
  pub is_ga : Bool

pub record SeatCreate : Type 0 where
  pub row : ℕ
  pub number : ℕ

pub record SeatUpdate : Type 0 where
  pub row : Option ℕ
  pub number : Option ℕ

pub check_sector_allows_seats : Sector → Result (Unit {0})
check_sector_allows_seats sector =
    raise_if sector.is_ga (invalid_input "Sector is GA - seats not allowed")

-- Venue.address_id is unique.
abbrev pub same_address : Venue → Venue → Bool
same_address v w = v.address_id == w.address_id

-- uq_sector_venue_name
abbrev pub same_name : Sector → Sector → Bool
same_name s t = s.venue_id == t.venue_id && same_string s.name t.name

-- uq_sector_seat_row_number
abbrev pub same_place : Seat → Seat → Bool
same_place s t = s.sector_id == t.sector_id && (s.row == t.row && s.number == t.number)

-- INSERT under the unique constraint that `same` compares, with the next key.
pub flush_venue : Database → Venue → Result Database
flush_venue db v = do
  raise_if (exists (λ w. same_address w v) db.venues) integrity_error
  ok (record db {
    venues = db.venues ++ v ∷ [];
    next = record (db.next) { venue_id = suc db.next.venue_id };
  })

abbrev pub new_venue : ℕ → VenueCreate → Venue
new_venue id schema = record { id = id; name = schema.name; address_id = schema.address_id }

pub create_venue : Database → VenueCreate → Result (Venue × Database)
create_venue db schema = do
  address ← get_address db schema.address_id
  let venue = new_venue db.next.venue_id schema
  db1 ←
      on_integrity_error (flush_venue db venue) (conflict "Venue with this address already exists")
  ok (venue, db1)

-- The name alone is written, so the flush of the update meets no constraint.
pub update_venue : Database → String → ℕ → Result (Venue × Database)
update_venue db name venue_id = do
  venue ← get_venue db venue_id
  let venue' = record venue { name = name }
  ok (venue', record db { venues = update (λ v. v.id == venue.id) (λ _. venue') db.venues })

-- The range of the column, chk_sector_base_capacity and uq_sector_venue_name
pub flush_sector : Database → Sector → Result Database
flush_sector db s = do
  raise_if (not (ltb s.base_capacity integer_limit)) data_error
  raise_if (not (ltb 0 s.base_capacity)) integrity_error
  raise_if (exists (λ t. same_name t s) db.sectors) integrity_error
  ok (record db {
    sectors = db.sectors ++ s ∷ [];
    next = record (db.next) { sector_id = suc db.next.sector_id };
  })

abbrev pub new_sector : ℕ → ℕ → SectorCreate → Sector
new_sector id venue_id schema = record {
  id = id;
  venue_id = venue_id;
  name = schema.name;
  is_ga = schema.is_ga;
  base_capacity = schema.base_capacity;
}

pub create_sector : Database → ℕ → SectorCreate → Result (Sector × Database)
create_sector db venue_id schema = do
  venue ← get_venue db venue_id
  let sector = new_sector db.next.sector_id venue_id schema
  db1 ←
      on_integrity_error (flush_sector db sector)
        (conflict "Sector name already in use for this venue")
  ok (sector, db1)

-- UPDATE of one row: the constraint compares it with the others.
pub flush_renamed : Database → Sector → Result Database
flush_renamed db s = do
  raise_if (exists (λ t. not (t.id == s.id) && same_name t s) db.sectors) integrity_error
  ok (record db { sectors = update (λ t. t.id == s.id) (λ _. s) db.sectors })

pub update_sector : Database → String → ℕ → Result (Sector × Database)
update_sector db name sector_id = do
  sector ← get_sector db sector_id
  let sector' = record sector { name = name }
  db1 ←
      on_integrity_error (flush_renamed db sector')
        (conflict "Sector name already in use for this venue")
  ok (sector', db1)

pub get_seat : Database → ℕ → Result Seat
get_seat db seat_id = or_raise (scalar (λ s. s.id == seat_id) db.seats) (not_found "Seat not found")

abbrev pub insert_seat : Database → Seat → Database
insert_seat db s = record db {
  seats = db.seats ++ s ∷ [];
  next = record (db.next) { seat_id = suc db.next.seat_id };
}

-- What the table accepts of a row and a number: the range of the columns, chk_seat_row_gt0 and
-- chk_seat_number_gt0.
pub check_seat : ℕ → ℕ → Result (Unit {0})
check_seat row number = do
  raise_if (not (ltb row integer_limit && ltb number integer_limit)) data_error
  raise_if (not (ltb 0 row && ltb 0 number)) integrity_error

-- The checks and uq_sector_seat_row_number.
pub flush_seat : Database → Seat → Result Database
flush_seat db s = do
  check_seat s.row s.number
  raise_if (exists (λ t. same_place t s) db.seats) integrity_error
  ok (insert_seat db s)

abbrev pub new_seat : ℕ → ℕ → SeatCreate → Seat
new_seat id sector_id schema = record {
  id = id;
  sector_id = sector_id;
  row = schema.row;
  number = schema.number;
}

pub create_seat : Database → SeatCreate → ℕ → Result (Seat × Database)
create_seat db schema sector_id = do
  sector ← get_sector db sector_id
  check_sector_allows_seats sector
  let seat = new_seat db.next.seat_id sector_id schema
  db1 ← on_integrity_error (flush_seat db seat) (conflict "Seat already exists")
  ok (seat, db1)

-- A row that is skipped has drawn its key.
abbrev pub skip_seat : Database → Database
skip_seat db = record db { next = record (db.next) { seat_id = suc db.next.seat_id } }

abbrev pub put_seat : Database → Seat → Database
put_seat db s = if exists (λ t. same_place t s) db.seats then skip_seat db else insert_seat db s

-- insert(Seat).values([...]).on_conflict_do_nothing()
pub bulk_add_seats : Database → ℕ → List SeatCreate → Database
bulk_add_seats db sector_id [] = db
bulk_add_seats db sector_id (schema ∷ schemas) =
    bulk_add_seats (put_seat db (new_seat db.next.seat_id sector_id schema)) sector_id schemas

-- The rows of one statement: ON CONFLICT DO NOTHING says nothing of ranges and checks.
pub check_seats : List SeatCreate → Result (Unit {0})
check_seats [] = ok tt
check_seats (schema ∷ schemas) = do check_seat schema.row schema.number; check_seats schemas

pub bulk_create_seats : Database → List SeatCreate → ℕ → Result (Unit {0} × Database)
bulk_create_seats db schemas sector_id = do
  sector ← get_sector db sector_id
  check_sector_allows_seats sector
  check_seats schemas
  ok (tt, bulk_add_seats db sector.id schemas)

abbrev pub moved : SeatUpdate → Seat → Seat
moved schema seat = record seat {
  row = or_old schema.row seat.row;
  number = or_old schema.number seat.number;
}

pub flush_moved : Database → Seat → Result Database
flush_moved db s = do
  check_seat s.row s.number
  raise_if (exists (λ t. not (t.id == s.id) && same_place t s) db.seats) integrity_error
  ok (record db { seats = update (λ t. t.id == s.id) (λ _. s) db.seats })

pub update_seat : Database → SeatUpdate → ℕ → Result (Seat × Database)
update_seat db schema seat_id = do
  seat ← get_seat db seat_id
  sector ← get_sector db seat.sector_id
  check_sector_allows_seats sector
  let seat' = moved schema seat
  db1 ← on_integrity_error (flush_moved db seat') (conflict "Seat already exists")
  ok (seat', db1)

abbrev pub sits_on : ℕ → TicketInstance → Bool
sits_on seat_id t = equals t.seat_id seat_id

-- db.delete(seat): where the ORM empties the foreign keys of the children first, no row forbids it.
pub flush_deletion : Bool → Database → ℕ → Result Database
flush_deletion nullifies db seat_id = do
  raise_if (not nullifies && exists (sits_on seat_id) db.ticket_instances) integrity_error
  ok (record db {
    seats = delete (λ s. s.id == seat_id) db.seats;
    ticket_instances =
        update (sits_on seat_id) (λ t. record t { seat_id = none }) db.ticket_instances;
  })

pub delete_seat : Bool → Database → ℕ → Result (Unit {0} × Database)
delete_seat nullifies db seat_id = do
  seat ← get_seat db seat_id
  db1 ← on_integrity_error (flush_deletion nullifies db seat.id) (conflict "Seat in use")
  ok (tt, db1)

-- The requests of app/api/v1/routes/venues.py, sectors.py and seats.py that an administrator makes.
pub data VenueRequest : Type 0 where
  creates_venue : VenueCreate → VenueRequest
  renames_venue : String → ℕ → VenueRequest
  creates_sector : ℕ → SectorCreate → VenueRequest
  renames_sector : String → ℕ → VenueRequest
  creates_seat : SeatCreate → ℕ → VenueRequest
  creates_seats : List SeatCreate → ℕ → VenueRequest
  moves_seat : SeatUpdate → ℕ → VenueRequest
  deletes_seat : ℕ → VenueRequest

module _ (nullifies : Bool) where
  pub venue_step : Database → VenueRequest → Database
  venue_step db (creates_venue schema) = (get_db db (create_venue db schema)).1
  venue_step db (renames_venue name id) = (get_db db (update_venue db name id)).1
  venue_step db (creates_sector id schema) = (get_db db (create_sector db id schema)).1
  venue_step db (renames_sector name id) = (get_db db (update_sector db name id)).1
  venue_step db (creates_seat schema id) = (get_db db (create_seat db schema id)).1
  venue_step db (creates_seats schemas id) = (get_db db (bulk_create_seats db schemas id)).1
  venue_step db (moves_seat schema id) = (get_db db (update_seat db schema id)).1
  venue_step db (deletes_seat id) = (get_db db (delete_seat nullifies db id)).1

  pub run_venues : Database → List VenueRequest → Database
  run_venues db [] = db
  run_venues db (r ∷ rs) = run_venues (venue_step db r) rs
