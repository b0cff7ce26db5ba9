-- ===== src/Pricing.antt =====
-- app/services/ticket_type_service.py, event_ticket_type_service.py and app/domain/pricing/crud.py.
-- Prices are whole cents and rates whole hundredths, as the columns hold them.
pub mod Offers
pub mod Changes
pub mod Sales
mod Tests
use ticketing_system.Prelude.{
  ℕ, suc, Bool, true, false, not, ◌&&◌, ◌||◌, List, [], ◌∷◌, ◌++◌, Option, none, some, String, leb,
  ◌==◌, if◌then◌else◌,
}
use ticketing_system.Prelude.Strings.{same_string}
use ticketing_system.Errors.{
  Result, ok, ◌>>=◌, ◌>>◌, raise_if, or_raise, on_integrity_error, not_found, conflict,
  integrity_error, data_error, get_db,
}
use ticketing_system.Table.{scalar, exists, select, update, delete}
use ticketing_system.Schema.{
  Database, TicketType, EventTicketType, EventSector, User, Role, price_limit, rate_limit,
}
use ticketing_system.Events.{or_old}
use ticketing_system.Access.{require_roles, ensure_event_owner, require_event_ticket_type_access}
use ticketing_system.Allocation.{get_event_sector}

-- The schemas after validation.
pub record EventTicketTypeCreate : Type 0 where
  pub ticket_type_id : ℕ
  pub price_net : ℕ
  pub vat_rate : ℕ

pub record EventTicketTypeUpdate : Type 0 where
  pub price_net : Option ℕ
  pub vat_rate : Option ℕ

pub get_ticket_type : Database → ℕ → Result TicketType
get_ticket_type db ticket_type_id =
    or_raise (scalar (λ t. t.id == ticket_type_id) db.ticket_types)
      (not_found "Ticket type not found")

-- TicketType.name is unique.
abbrev pub same_type_name : TicketType → TicketType → Bool
same_type_name s t = same_string s.name t.name

pub flush_ticket_type : Database → TicketType → Result Database
flush_ticket_type db t = do
  raise_if (exists (λ s. same_type_name s t) db.ticket_types) integrity_error
  ok (record db {
    ticket_types = db.ticket_types ++ t ∷ [];
    next = record (db.next) { ticket_type_id = suc db.next.ticket_type_id };
  })

abbrev pub new_ticket_type : ℕ → String → TicketType
new_ticket_type id name = record { id = id; name = name }

pub create_ticket_type : Database → String → Result (TicketType × Database)
create_ticket_type db name = do
  let ticket_type = new_ticket_type db.next.ticket_type_id name
  db1 ←
      on_integrity_error (flush_ticket_type db ticket_type) (conflict "Ticket type already exists")
  ok (ticket_type, db1)

-- The foreign key of an event's ticket type can be neither emptied nor deleted.
pub flush_type_deletion : Database → TicketType → Result Database
flush_type_deletion db t = do
  raise_if (exists (λ e. e.ticket_type_id == t.id) db.event_ticket_types) integrity_error
  ok (record db { ticket_types = delete (λ s. s.id == t.id) db.ticket_types })

pub delete_ticket_type : Database → ℕ → Result (Unit {0} × Database)
delete_ticket_type db ticket_type_id = do
  ticket_type ← get_ticket_type db ticket_type_id
  db1 ← on_integrity_error (flush_type_deletion db ticket_type) (conflict "Ticket type in use")
  ok (tt, db1)

pub get_event_ticket_type : Database → ℕ → Result EventTicketType
get_event_ticket_type db id =
    or_raise (scalar (λ e. e.id == id) db.event_ticket_types)
      (not_found "Event ticket type not found")

pub list_event_sector_ticket_types : Database → ℕ → List EventTicketType
list_event_sector_ticket_types db event_sector_id =
    select (λ e. e.event_sector_id == event_sector_id) db.event_ticket_types

-- uq_event_sector_ticket_type
abbrev pub same_offer : EventTicketType → EventTicketType → Bool
same_offer d e = d.event_sector_id == e.event_sector_id && d.ticket_type_id == e.ticket_type_id

-- The Numeric columns of an offer cannot hold the value.
abbrev pub offer_overflows : EventTicketType → Bool
offer_overflows e = leb price_limit e.price_net || leb rate_limit e.vat_rate

abbrev pub insert_offer : Database → EventTicketType → Database
insert_offer db e = record db {
  event_ticket_types = db.event_ticket_types ++ e ∷ [];
  next = record (db.next) { event_ticket_type_id = suc db.next.event_ticket_type_id };
}

-- The foreign keys of an offer.
abbrev pub refers : Database → EventTicketType → Bool
refers db e =
    exists (λ s. s.id == e.event_sector_id) db.event_sectors
    && exists (λ t. t.id == e.ticket_type_id) db.ticket_types

-- INSERT: the columns' ranges first, then the unique constraint and the foreign keys.
pub flush_offer : Database → EventTicketType → Result Database
flush_offer db e = do
  raise_if (offer_overflows e) data_error
  raise_if (exists (λ d. same_offer d e) db.event_ticket_types) integrity_error
  raise_if (not (refers db e)) integrity_error
  ok (insert_offer db e)

abbrev pub new_offer : ℕ → ℕ → EventTicketTypeCreate → EventTicketType
new_offer id event_sector_id schema = record {
  id = id;
  event_sector_id = event_sector_id;
  ticket_type_id = schema.ticket_type_id;
  price_net = schema.price_net;
  vat_rate = schema.vat_rate;
}

pub create_event_ticket_type :
    Database → EventTicketTypeCreate → EventSector → Result (EventTicketType × Database)
create_event_ticket_type db schema event_sector = do
  let offer = new_offer db.next.event_ticket_type_id event_sector.id schema
  db1 ←
      on_integrity_error (flush_offer db offer)
        (conflict "This ticket type already exists for this sector")
  ok (offer, db1)

-- A row that is skipped has drawn its key.
abbrev pub skip_offer : Database → Database
skip_offer db = record db {
  next = record (db.next) { event_ticket_type_id = suc db.next.event_ticket_type_id };
}

abbrev pub put_offer : Database → EventTicketType → Database
put_offer db e =
    if exists (λ d. same_offer d e) db.event_ticket_types then skip_offer db else insert_offer db e

-- ON CONFLICT DO NOTHING says nothing of the ranges and of foreign keys.
pub flush_offers : Database → ℕ → List EventTicketTypeCreate → Result Database
flush_offers db event_sector_id [] = ok db
flush_offers db event_sector_id (schema ∷ schemas) = do
  let offer = new_offer db.next.event_ticket_type_id event_sector_id schema
  raise_if (offer_overflows offer) data_error
  raise_if (not (refers db offer)) integrity_error
  flush_offers (put_offer db offer) event_sector_id schemas

-- A list of at least one: what SQLAlchemy does with none is not said here.
pub bulk_create_event_ticket_types :
    Database
    → EventTicketTypeCreate
    → List EventTicketTypeCreate
    → EventSector
    → Result (Unit {0} × Database)
bulk_create_event_ticket_types db schema schemas event_sector = do
  db1 ← flush_offers db event_sector.id (schema ∷ schemas)
  ok (tt, db1)

abbrev pub repriced : EventTicketTypeUpdate → EventTicketType → EventTicketType
repriced schema e = record e {
  price_net = or_old schema.price_net e.price_net;
  vat_rate = or_old schema.vat_rate e.vat_rate;
}

pub flush_price : Database → EventTicketType → Result Database
flush_price db e = do
  raise_if (offer_overflows e) data_error
  ok (record db { event_ticket_types = update (λ d. d.id == e.id) (λ _. e) db.event_ticket_types })

pub update_event_ticket_type :
    Database → EventTicketType → EventTicketTypeUpdate → Result (EventTicketType × Database)
update_event_ticket_type db event_ticket_type schema = do
  let offer = repriced schema event_ticket_type
  db1 ←
      on_integrity_error (flush_price db offer)
        (conflict "This ticket type already exists for this sector")
  ok (offer, db1)

-- The foreign key of the ticket instances has no rule for deletions.
pub flush_offer_deletion : Database → EventTicketType → Result Database
flush_offer_deletion db e = do
  raise_if (exists (λ t. t.event_ticket_type_id == e.id) db.ticket_instances) integrity_error
  ok (record db { event_ticket_types = delete (λ d. d.id == e.id) db.event_ticket_types })

pub delete_event_ticket_type : Database → EventTicketType → Result (Unit {0} × Database)
delete_event_ticket_type db event_ticket_type = do
  db1 ←
      on_integrity_error (flush_offer_deletion db event_ticket_type)
        (conflict "Event ticket type in use")
  ok (tt, db1)

-- The requests of app/api/v1/routes/event_ticket_types.py and ticket_types.py, and those of events.py
-- on ticket types.
pub data PriceRequest : Type 0 where
  offers : User → ℕ → ℕ → EventTicketTypeCreate → PriceRequest
  offers_all : User → ℕ → ℕ → EventTicketTypeCreate → List EventTicketTypeCreate → PriceRequest
  patches : User → ℕ → EventTicketTypeUpdate → PriceRequest
  deletes : User → ℕ → PriceRequest
  creates_type : User → String → PriceRequest
  deletes_type : User → ℕ → PriceRequest

pub post_offer :
    Database → User → ℕ → ℕ → EventTicketTypeCreate → Result (EventTicketType × Database)
post_offer db user event_id sector_id schema = do
  require_roles (Role.admin ∷ Role.organizer ∷ []) user
  event ← ensure_event_owner db event_id user
  event_sector ← get_event_sector db event.id sector_id
  create_event_ticket_type db schema event_sector

pub post_offers :
    Database
    → User
    → ℕ
    → ℕ
    → EventTicketTypeCreate
    → List EventTicketTypeCreate
    → Result (Unit {0} × Database)
post_offers db user event_id sector_id schema schemas = do
  require_roles (Role.admin ∷ Role.organizer ∷ []) user
  event ← ensure_event_owner db event_id user
  event_sector ← get_event_sector db event.id sector_id
  bulk_create_event_ticket_types db schema schemas event_sector

pub patch_offer : Database → User → ℕ → EventTicketTypeUpdate → Result (EventTicketType × Database)
patch_offer db user id schema = do
  require_roles (Role.admin ∷ Role.organizer ∷ []) user
  offer ← require_event_ticket_type_access db id user
  update_event_ticket_type db offer schema

pub delete_offer : Database → User → ℕ → Result (Unit {0} × Database)
delete_offer db user id = do
  require_roles (Role.admin ∷ Role.organizer ∷ []) user
  offer ← require_event_ticket_type_access db id user
  delete_event_ticket_type db offer

pub create_type : Database → User → String → Result (TicketType × Database)
create_type db user name = do require_roles (Role.admin ∷ []) user; create_ticket_type db name

pub delete_type : Database → User → ℕ → Result (Unit {0} × Database)
delete_type db user id = do require_roles (Role.admin ∷ []) user; delete_ticket_type db id

pub price_step : Database → PriceRequest → Database
price_step db (offers user event_id sector_id schema) =
    (get_db db (post_offer db user event_id sector_id schema)).1
price_step db (offers_all user event_id sector_id schema schemas) =
    (get_db db (post_offers db user event_id sector_id schema schemas)).1
price_step db (patches user id schema) = (get_db db (patch_offer db user id schema)).1
price_step db (deletes user id) = (get_db db (delete_offer db user id)).1
price_step db (creates_type user name) = (get_db db (create_type db user name)).1
price_step db (deletes_type user id) = (get_db db (delete_type db user id)).1

pub run_prices : Database → List PriceRequest → Database
run_prices db [] = db
run_prices db (r ∷ rs) = run_prices (price_step db r) rs
