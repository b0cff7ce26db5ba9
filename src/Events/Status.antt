-- ===== src/Events/Status.antt =====
-- The transitions of an event's status: ALLOWED_TRANSITIONS and `update_event_status` of
-- app/services/event_service.py.
use ticketing_system.Prelude.{ℕ, ◌≡◌, refl, ◌↔◌, Bool, true, false, not, some, arith, ltb, ◌==◌}
use ticketing_system.Errors.{
  Result, is_ok, ok, err, Ensures, Ensures-bind, Ensures-raise_if, Ensures-map, returned, raised,
  on_integrity_error,
}
use ticketing_system.Table.{scalar, exists}
use ticketing_system.Schema.{Database, Event, EventStatus, is_event_status}
use ticketing_system.Events.{allowed_transitions, flush_event, save_event, update_event_status}
use ticketing_system.Events.Times.{IsWellTimed}

-- The edges of the status graph.
pub data Moves : EventStatus → EventStatus → Type 0 where
  approves : Moves EventStatus.awaiting_approval EventStatus.planned
  rejects : Moves EventStatus.awaiting_approval EventStatus.rejected
  opens_sale : Moves EventStatus.planned EventStatus.on_sale
  calls_off : Moves EventStatus.planned EventStatus.cancelled
  ends_sale : Moves EventStatus.on_sale EventStatus.ended
  stops_sale : Moves EventStatus.on_sale EventStatus.cancelled

abbrev is_allowed : EventStatus → EventStatus → Bool
is_allowed new_status current = exists (is_event_status new_status) (allowed_transitions current)

Moves-allowed : {s t : EventStatus} → Moves s t → is_allowed t s ≡ true
unfolding exists allowed_transitions
Moves-allowed approves = refl
Moves-allowed rejects = refl
Moves-allowed opens_sale = refl
Moves-allowed calls_off = refl
Moves-allowed ends_sale = refl
Moves-allowed stops_sale = refl

Moves-new : {s t : EventStatus} → Moves s t → is_event_status t s ≡ false
Moves-new approves = refl
Moves-new rejects = refl
Moves-new opens_sale = refl
Moves-new calls_off = refl
Moves-new ends_sale = refl
Moves-new stops_sale = refl

allowed-Moves : (s t : EventStatus) → is_allowed t s ≡ true → Moves s t
unfolding exists allowed_transitions
allowed-Moves EventStatus.awaiting_approval EventStatus.planned h = approves
allowed-Moves EventStatus.awaiting_approval EventStatus.rejected h = rejects
allowed-Moves EventStatus.planned EventStatus.on_sale h = opens_sale
allowed-Moves EventStatus.planned EventStatus.cancelled h = calls_off
allowed-Moves EventStatus.on_sale EventStatus.ended h = ends_sale
allowed-Moves EventStatus.on_sale EventStatus.cancelled h = stops_sale
allowed-Moves s t h = cc

flush_event-ok : (e : Event) → IsWellTimed e → flush_event e ≡ ok tt
unfolding flush_event
flush_event-ok e h =
    let event_time : ltb e.event_end e.event_start ≡ false = ground (arith, h.0) in
    let sales_time : ltb e.sales_end e.sales_start ≡ false = ground (arith, h.1) in
    rw (event_time, sales_time) refl

abbrev pub moved : Event → EventStatus → Event
moved e status = record e { status = status }

module _ (db : Database) (status : EventStatus) (event_id : ℕ) (e : Event)
    (found : scalar (λ e. e.id == event_id) db.events ≡ some e) where
  pub update_event_status-Moves :
      Ensures
        (λ (r : Event × Database).
          Moves e.status status × (r ≡ (moved e status, save_event db (moved e status))))
        (update_event_status db status event_id)
  unfolding update_event_status
  update_event_status-Moves = rw found (
      Ensures-raise_if (is_event_status status e.status) _ _ λ _.
        Ensures-raise_if (not (is_allowed status e.status)) _ _ λ allowed.
          Ensures-bind (on_integrity_error (flush_event (moved e status)) _) _
            λ _ _. returned (allowed-Moves e.status status (ground arith), refl))

  update_event_status-ok :
      IsWellTimed e
      → Moves e.status status
      → update_event_status db status event_id ≡ ok (moved e status, save_event db (moved e status))
  unfolding update_event_status
  update_event_status-ok timed m =
      rw (found, Moves-new m, Moves-allowed m, flush_event-ok (moved e status) timed) refl

of_ok {κ} :
    {P : Type κ} (r : Result (Event × Database))
    → Ensures (λ (r : Event × Database). P) r
    → is_ok r ≡ true
    → P
of_ok (ok r) (returned p) h = p
of_ok (err e) raised h = cc

-- A change of status succeeds exactly along the edges of the graph, for an event that is there and
-- ends after it starts, as does its sale.
pub update_event_status_iff :
    (db : Database) (status : EventStatus) (event_id : ℕ) (e : Event)
    → scalar (λ e. e.id == event_id) db.events ≡ some e
    → IsWellTimed e
    → (is_ok (update_event_status db status event_id) ≡ true) ↔ Moves e.status status
update_event_status_iff db status event_id e found timed = (
  of_ok _ (Ensures-map _ (λ r m. m.0) (update_event_status-Moves db status event_id e found)),
  λ m. rw (update_event_status-ok db status event_id e found timed m) refl,
)

-- The statuses that an event passes through.
pub data Evolves : EventStatus → EventStatus → Type 0 where
  stays : {s : EventStatus} → Evolves s s
  then_moves : {s t u : EventStatus} → Evolves s t → Moves t u → Evolves s u
