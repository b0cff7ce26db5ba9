-- ===== src/Events.antt =====
-- app/services/event_service.py: the life of an event, but for the lists.
pub mod Status
pub mod History
pub mod Isolation
mod Tests
pub mod Times
use ticketing_system.Prelude.{
  ℕ, suc, Bool, true, false, not, ◌&&◌, ◌||◌, List, [], ◌∷◌, ◌++◌, Option, none, some, String, ltb,
  leb, ◌==◌, is_some,
}
use ticketing_system.Errors.{
  Result, ok, ◌>>=◌, ◌>>◌, raise_if, or_raise, on_integrity_error, not_found, conflict,
  invalid_input, integrity_error, get_db,
}
use ticketing_system.Table.{scalar, exists, update}
use ticketing_system.Schema.{Database, Event, EventStatus, Venue, User, Role, is_event_status}
use ticketing_system.Booking.Cart.{keep_old}
use ticketing_system.Access.{
  has_role, is_member, ensure_event_owner, require_organizer_member, require_roles,
}

-- EventCreateDTO, after validation.
pub record EventCreate : Type 0 where
  pub name : String
  pub venue_id : ℕ
  pub event_start : ℕ
  pub event_end : ℕ
  pub sales_start : ℕ
  pub sales_end : ℕ
  pub max_tickets_per_user : Option ℕ
  pub age_restriction : Option ℕ
  pub holder_data_required : Bool
  pub description : Option String

-- EventUpdateDTO, after validation: what is None stays as it is.
pub record EventUpdate : Type 0 where
  pub name : Option String
  pub description : Option String
  pub event_start : Option ℕ
  pub event_end : Option ℕ
  pub sales_start : Option ℕ
  pub sales_end : Option ℕ
  pub max_tickets_per_user : Option ℕ
  pub age_restriction : Option ℕ
  pub holder_data_required : Option Bool

-- PUBLIC_STATUSES
pub public_statuses : List EventStatus
public_statuses = EventStatus.on_sale ∷ EventStatus.planned ∷ []

-- ALLOWED_TRANSITIONS.get(current, set())
pub allowed_transitions : EventStatus → List EventStatus
allowed_transitions EventStatus.awaiting_approval = EventStatus.planned ∷ EventStatus.rejected ∷ []
allowed_transitions EventStatus.planned = EventStatus.on_sale ∷ EventStatus.cancelled ∷ []
allowed_transitions EventStatus.on_sale = EventStatus.ended ∷ EventStatus.cancelled ∷ []
allowed_transitions _ = []

pub validate_event_times_on_create : EventCreate → Result (Unit {0})
validate_event_times_on_create changes = do
  raise_if (leb changes.event_end changes.event_start)
      (invalid_input "event_end must be after event_start")
  raise_if (leb changes.sales_end changes.sales_start)
      (invalid_input "sales_end must be after sales_start")

-- data.get(field, old)
abbrev pub or_old {ℓ} : {A : Type ℓ} → Option A → A → A
or_old none old = old
or_old (some new) old = new

-- for k, v in data.items(): setattr(event, k, v)
abbrev pub write_event : EventUpdate → Event → Event
write_event changes event = record event {
  name = or_old changes.name event.name;
  description = keep_old changes.description event.description;
  event_start = or_old changes.event_start event.event_start;
  event_end = or_old changes.event_end event.event_end;
  sales_start = or_old changes.sales_start event.sales_start;
  sales_end = or_old changes.sales_end event.sales_end;
  max_tickets_per_user = keep_old changes.max_tickets_per_user event.max_tickets_per_user;
  age_restriction = keep_old changes.age_restriction event.age_restriction;
  holder_data_required = or_old changes.holder_data_required event.holder_data_required;
}

pub validate_event_times_on_update : EventUpdate → Event → ℕ → Result (Unit {0})
validate_event_times_on_update changes ev now = do
  raise_if (leb (or_old changes.event_end ev.event_end) (or_old changes.event_start ev.event_start))
      (invalid_input "event_end must be after event_start")
  raise_if (leb (or_old changes.sales_end ev.sales_end) (or_old changes.sales_start ev.sales_start))
      (invalid_input "sales_end must be after sales_start")
  raise_if (is_some changes.sales_start && leb ev.sales_start now)
      (conflict "Cannot change sales_start after sales began")
  raise_if (is_some changes.event_start && leb ev.event_start now)
      (conflict "Cannot change event_start after event started")

pub get_event : Database → ℕ → User → Result Event
get_event db event_id user = do
  event ← or_raise (scalar (λ e. e.id == event_id) db.events) (not_found "Event not found")
  raise_if
      (not (
        has_role Role.admin user
        || ((has_role Role.organizer user && is_member event.organizer_id user)
            || exists (is_event_status event.status) public_statuses)))
      (not_found "Event not found")
  ok event

unfoldable pub get_venue : Database → ℕ → Result Venue
get_venue db venue_id =
    or_raise (scalar (λ v. v.id == venue_id) db.venues) (not_found "Venue not found")

-- What a flush of an event tests: chk_event_time_range and chk_sales_range.
pub flush_event : Event → Result (Unit {0})
flush_event e = do
  raise_if (ltb e.event_end e.event_start) integrity_error
  raise_if (ltb e.sales_end e.sales_start) integrity_error

abbrev pub save_event : Database → Event → Database
save_event db event = record db { events = update (λ e. e.id == event.id) (λ _. event) db.events }

abbrev pub new_event : ℕ → ℕ → EventCreate → Event
new_event id organizer_id changes = record {
  id = id;
  name = changes.name;
  organizer_id = organizer_id;
  venue_id = changes.venue_id;
  event_start = changes.event_start;
  event_end = changes.event_end;
  sales_start = changes.sales_start;
  sales_end = changes.sales_end;
  max_tickets_per_user = changes.max_tickets_per_user;
  age_restriction = changes.age_restriction;
  holder_data_required = changes.holder_data_required;
  description = changes.description;
  status = EventStatus.awaiting_approval;
}

-- The foreign key to the organizer may fail, too: an admin may name one that does not exist.
pub flush_new_event : Database → Event → Result (Unit {0})
flush_new_event db e = do
  raise_if (not (exists (λ o. o.id == e.organizer_id) db.organizers)) integrity_error
  flush_event e

pub create_event : Database → ℕ → EventCreate → Result (Event × Database)
create_event db organizer_id schema = do
  venue ← get_venue db schema.venue_id
  validate_event_times_on_create schema
  let event = new_event db.next.event_id organizer_id schema
  on_integrity_error (flush_new_event db event) (conflict "Event time conflict")
  ok (
    event,
    record db {
      events = db.events ++ event ∷ [];
      next = record (db.next) { event_id = suc db.next.event_id };
    },
  )

pub update_event : Database → EventUpdate → Event → ℕ → Result (Event × Database)
update_event db schema event now = do
  validate_event_times_on_update schema event now
  let event' = write_event schema event
  on_integrity_error (flush_event event') (conflict "Event time conflict")
  ok (event', save_event db event')

pub update_event_status : Database → EventStatus → ℕ → Result (Event × Database)
update_event_status db new_status event_id = do
  event ← or_raise (scalar (λ e. e.id == event_id) db.events) (not_found "Event not found")
  raise_if (is_event_status new_status event.status) (invalid_input "Status is already set")
  raise_if (not (exists (is_event_status new_status) (allowed_transitions event.status)))
      (conflict "Invalid status transition")
  let event' = record event { status = new_status }
  on_integrity_error (flush_event event') (conflict "Statuses conflict")
  ok (event', save_event db event')

-- The requests of app/api/v1/routes/events.py that change events, with the user of the session.
pub data EventRequest : Type 0 where
  creates : User → ℕ → EventCreate → EventRequest
  patches : User → ℕ → EventUpdate → ℕ → EventRequest
  sets_status : User → ℕ → EventStatus → EventRequest

pub create_event_as : Database → User → ℕ → EventCreate → Result (Event × Database)
create_event_as db user organizer_id schema = do
  require_roles (Role.admin ∷ Role.organizer ∷ []) user
  id ← require_organizer_member organizer_id user
  create_event db id schema

pub patch_event : Database → User → ℕ → EventUpdate → ℕ → Result (Event × Database)
patch_event db user event_id schema now = do
  require_roles (Role.admin ∷ Role.organizer ∷ []) user
  event ← ensure_event_owner db event_id user
  update_event db schema event now

pub patch_event_status : Database → User → ℕ → EventStatus → Result (Event × Database)
patch_event_status db user event_id status = do
  require_roles (Role.admin ∷ []) user
  update_event_status db status event_id

pub event_step : Database → EventRequest → Database
event_step db (creates user organizer_id schema) =
    (get_db db (create_event_as db user organizer_id schema)).1
event_step db (patches user event_id schema now) =
    (get_db db (patch_event db user event_id schema now)).1
event_step db (sets_status user event_id status) =
    (get_db db (patch_event_status db user event_id status)).1

pub run_events : Database → List EventRequest → Database
run_events db [] = db
run_events db (r ∷ rs) = run_events (event_step db r) rs
