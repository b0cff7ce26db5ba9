-- ===== src/Events/Tests.antt =====
-- Events of the sample database, and of one where the concert is planned.
use ticketing_system.Prelude.{◌==◌, ◌≡◌, ◌↔◌, refl, true, [], ◌∷◌, none, some, arith, All, List}
use ticketing_system.Errors.{Ensures, is_ok}
use ticketing_system.Table.{scalar, exists}
use ticketing_system.Schema.{Database, Event, EventStatus, User, Role}
use ticketing_system.Events.{
  EventUpdate, EventRequest, patches, sets_status, run_events, update_event, update_event_status,
}
use ticketing_system.Events.Status.{Moves, update_event_status_iff}
use ticketing_system.Events.Times.{IsWellTimed, run_events-IsWellTimed, update_event-sales_start}
use ticketing_system.Events.History.{HasEvolved, run_events-HasEvolved}
use ticketing_system.Events.Isolation.{run_events_isolated}
use ticketing_system.Samples.{concert, start}

abbrev boss : User
boss = record { id = 1; is_active = true; roles = Role.admin ∷ []; organizers = [] }

abbrev rival : User
rival = record { id = 2; is_active = true; roles = Role.organizer ∷ []; organizers = 9 ∷ [] }

abbrev longer_sale : EventUpdate
longer_sale = record {
  name = none;
  description = none;
  event_start = none;
  event_end = none;
  sales_start = none;
  sales_end = some 8500;
  max_tickets_per_user = none;
  age_restriction = none;
  holder_data_required = none;
}

abbrev requests : List EventRequest
requests =
    patches rival 1 longer_sale 300
    ∷ patches boss 1 longer_sale 400
    ∷ sets_status boss 1 EventStatus.ended
    ∷ []

update_event_status_iff_example :
    (is_ok (update_event_status start EventStatus.ended 1) ≡ true)
    ↔ Moves EventStatus.on_sale EventStatus.ended
unfolding scalar
update_event_status_iff_example =
    update_event_status_iff start EventStatus.ended 1 concert refl (omega arith, omega arith)

run_events-IsWellTimed_example : All IsWellTimed (run_events start requests).events
run_events-IsWellTimed_example =
    run_events-IsWellTimed start requests ((omega arith, omega arith), tt)

update_event-sales_start_example :
    Ensures
      (λ (r : Event × Database). r.0.sales_start ≡ concert.sales_start)
      (update_event start longer_sale concert 300)
update_event-sales_start_example =
    update_event-sales_start start longer_sale concert 300 (omega arith)

run_events-HasEvolved_example : HasEvolved 1 concert (run_events start requests)
unfolding scalar
run_events-HasEvolved_example = run_events-HasEvolved 1 concert start requests refl

run_events_isolated_example :
    scalar (λ r. r.id == 1) (run_events start (patches rival 1 longer_sale 300 ∷ [])).events
    ≡ some concert
unfolding scalar exists
run_events_isolated_example =
    run_events_isolated 1 concert start (patches rival 1 longer_sale 300 ∷ []) ((refl, refl), tt)
      refl
