-- ===== src/Events/Times.antt =====
-- The times of events: app/services/event_service.py, `_validate_event_times_on_create` and
-- `_validate_event_times_on_update`.
use ticketing_system.Prelude.{
  ℕ, ◌≤◌, ◌<◌, ◌≡◌, refl, Bool, true, false, ◌==◌, List, [], ◌∷◌, not, ◌&&◌, Bool-cases, inl, inr,
  arith, leb, All, is_some, Option-cases,
}
use ticketing_system.Errors.{
  Ensures, Ensures-bind, Ensures-raise_if, returned, get_db-Keeps, or_raise, or_raise_ok,
  on_integrity_error, Error, raise_if, raised, Ensures_ok,
}
use ticketing_system.Table.{scalar, exists}
use ticketing_system.Table.Laws.{All-append, All-update, scalar-All}
use ticketing_system.Schema.{Database, Event, EventStatus, is_event_status, Role}
use ticketing_system.Access.{ensure_event_owner, require_organizer_member, require_roles}
use ticketing_system.Events.{
  EventCreate, EventUpdate, or_old, write_event, validate_event_times_on_create,
  validate_event_times_on_update, get_venue, flush_event, flush_new_event, save_event, new_event,
  create_event, update_event, update_event_status, allowed_transitions, EventRequest, creates,
  patches, sets_status, create_event_as, patch_event, patch_event_status, event_step, run_events,
}

-- The event and its sale end after they start.
abbrev pub IsWellTimed : Event → Type 0
IsWellTimed e = (e.event_start < e.event_end) × (e.sales_start < e.sales_end)

abbrev AreWellTimed : Database → Type 0
AreWellTimed db = All IsWellTimed db.events

abbrev Timed : Event × Database → Type 0
Timed r = AreWellTimed r.1

lt_of_leb : (a b : ℕ) → leb a b ≡ false → b < a
lt_of_leb a b h = ground arith

Ensures-raise_last {κ} :
    {Q : Unit {0} → Type κ} (c : Bool) (e : Error) → (c ≡ false → Q tt) → Ensures Q (raise_if c e)
Ensures-raise_last true e h = raised
Ensures-raise_last false e h = returned (h refl)

validate-create :
    (id organizer_id : ℕ) (schema : EventCreate)
    → Ensures
        (λ _. IsWellTimed (new_event id organizer_id schema))
        (validate_event_times_on_create schema)
unfolding validate_event_times_on_create
validate-create id organizer_id schema =
    Ensures-raise_if (leb schema.event_end schema.event_start) _ _ λ event_time.
      Ensures-raise_last (leb schema.sales_end schema.sales_start) _
        λ sales_time. (ground (arith, event_time), ground (arith, sales_time))

validate-update :
    (schema : EventUpdate) (e : Event) (now : ℕ)
    → Ensures
        (λ _. IsWellTimed (write_event schema e))
        (validate_event_times_on_update schema e now)
unfolding validate_event_times_on_update
validate-update schema e now =
    Ensures-raise_if
      (leb (or_old schema.event_end e.event_end) (or_old schema.event_start e.event_start)) _ _
      λ event_time.
        Ensures-raise_if
          (leb (or_old schema.sales_end e.sales_end) (or_old schema.sales_start e.sales_start)) _ _
          λ sales_time.
            Ensures-raise_if (is_some schema.sales_start && leb e.sales_start now) _ _ λ _.
              Ensures-raise_last (is_some schema.event_start && leb e.event_start now) _
                λ _. (lt_of_leb _ _ event_time, lt_of_leb _ _ sales_time)

create_event-Timed :
    (db : Database) (organizer_id : ℕ) (schema : EventCreate)
    → AreWellTimed db
    → Ensures Timed (create_event db organizer_id schema)
unfolding create_event
create_event-Timed db organizer_id schema h = Ensures-bind (get_venue db schema.venue_id) _ λ v _.
    Ensures-bind (validate_event_times_on_create schema) _ λ u e.
      Ensures-bind (on_integrity_error (flush_new_event db _) _) _ λ _ _. returned (
        All-append IsWellTimed db.events _ h
          (Ensures_ok _ (validate-create db.next.event_id organizer_id schema) e, tt))

save_event-Timed :
    (db : Database) (event : Event)
    → IsWellTimed event
    → AreWellTimed db
    → AreWellTimed (save_event db event)
save_event-Timed db event e h =
    All-update IsWellTimed IsWellTimed (λ r. r.id == event.id) (λ _. event) db.events
      (λ r ok_r. elim (Bool-cases (r.id == event.id)) [
        | inl hit ↦ rw hit e
        | inr miss ↦ rw miss ok_r
      ])
      h

update_event-Timed :
    (db : Database) (schema : EventUpdate) (event : Event) (now : ℕ)
    → AreWellTimed db
    → Ensures Timed (update_event db schema event now)
unfolding update_event
update_event-Timed db schema event now h =
    Ensures-bind (validate_event_times_on_update schema event now) _ λ _ e.
      Ensures-bind (on_integrity_error (flush_event (write_event schema event)) _) _ λ _ _.
        returned (
          save_event-Timed db (write_event schema event)
            (Ensures_ok _ (validate-update schema event now) e) h)

update_event_status-Timed :
    (db : Database) (status : EventStatus) (event_id : ℕ)
    → AreWellTimed db
    → Ensures Timed (update_event_status db status event_id)
unfolding update_event_status
update_event_status-Timed db status event_id h =
    Ensures-bind (or_raise (scalar (λ e. e.id == event_id) db.events) _) _ λ event e.
      Ensures-raise_if (is_event_status status event.status) _ _ λ _.
        Ensures-raise_if (not (exists (is_event_status status) (allowed_transitions event.status)))
          _ _
          λ _.
            Ensures-bind (on_integrity_error (flush_event (record event { status = status })) _) _
              λ _ _. returned (
                save_event-Timed db (record event { status = status })
                  (scalar-All IsWellTimed _ db.events event h (or_raise_ok _ _ _ e)) h)

event_step-Timed :
    (db : Database) (r : EventRequest) → AreWellTimed db → AreWellTimed (event_step db r)
unfolding event_step create_event_as patch_event patch_event_status
event_step-Timed db (creates user organizer_id schema) h = get_db-Keeps AreWellTimed db _ h (
    Ensures-bind (require_roles (Role.admin ∷ Role.organizer ∷ []) user) _ λ _ _.
      Ensures-bind (require_organizer_member organizer_id user) _
        λ id _. create_event-Timed db id schema h)
event_step-Timed db (patches user event_id schema now) h = get_db-Keeps AreWellTimed db _ h (
    Ensures-bind (require_roles (Role.admin ∷ Role.organizer ∷ []) user) _ λ _ _.
      Ensures-bind (ensure_event_owner db event_id user) _
        λ event _. update_event-Timed db schema event now h)
event_step-Timed db (sets_status user event_id status) h = get_db-Keeps AreWellTimed db _ h (
    Ensures-bind (require_roles (Role.admin ∷ []) user) _
      λ _ _. update_event_status-Timed db status event_id h)

-- Whatever requests create, change and move events on, every event ends after it starts and so does
-- its sale, if that holds of the events at the start.
pub run_events-IsWellTimed :
    (db : Database) (rs : List EventRequest)
    → All IsWellTimed db.events
    → All IsWellTimed (run_events db rs).events
unfolding run_events
run_events-IsWellTimed db [] h = h
run_events-IsWellTimed db (r ∷ rs) h =
    run_events-IsWellTimed (event_step db r) rs (event_step-Timed db r h)

sales_start-frozen :
    (schema : EventUpdate) (e : Event) (now : ℕ)
    → e.sales_start ≤ now
    → Ensures
        (λ _. or_old schema.sales_start e.sales_start ≡ e.sales_start)
        (validate_event_times_on_update schema e now)
unfolding validate_event_times_on_update
sales_start-frozen schema e now began =
    Ensures-raise_if
      (leb (or_old schema.event_end e.event_end) (or_old schema.event_start e.event_start)) _ _
      λ _.
        Ensures-raise_if
          (leb (or_old schema.sales_end e.sales_end) (or_old schema.sales_start e.sales_start)) _ _
          λ _. Ensures-raise_if (is_some schema.sales_start && leb e.sales_start now) _ _ λ late.
            Ensures-raise_last (is_some schema.event_start && leb e.event_start now) _ λ _.
              elim (Option-cases schema.sales_start) [
                | inl kept ↦ rw kept refl
                | inr (t, given) ↦ absurd (ground (arith, late, given, began))
              ]

-- Once the sale of an event has begun, an update that succeeds leaves the start of the sale alone.
pub update_event-sales_start :
    (db : Database) (schema : EventUpdate) (event : Event) (now : ℕ)
    → event.sales_start ≤ now
    → Ensures
        (λ (r : Event × Database). r.0.sales_start ≡ event.sales_start)
        (update_event db schema event now)
unfolding update_event
update_event-sales_start db schema event now began =
    Ensures-bind (validate_event_times_on_update schema event now) _ λ _ e.
      Ensures-bind (on_integrity_error (flush_event (write_event schema event)) _) _
        λ _ _. returned (Ensures_ok _ (sales_start-frozen schema event now began) e)
