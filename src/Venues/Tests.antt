-- ===== src/Venues/Tests.antt =====
-- The balcony of the sample.
use ticketing_system.Prelude.{
  ◌≡◌, refl, Bool, true, false, List, [], ◌∷◌, none, some, arith, All, ◌==◌,
}
use ticketing_system.Errors.{ok, err, conflict, is_ok, Ensures}
use ticketing_system.Table.{scalar, exists}
use ticketing_system.Schema.{Database, Seat, Sector, OrderStatus}
use ticketing_system.Venues.{
  VenueRequest, SeatCreate, creates_sector, creates_seats, renames_sector, deletes_seat, run_venues,
  bulk_create_seats, delete_seat, sits_on,
}
use ticketing_system.Venues.Layout.{run_venues-IsLaidOut}
use ticketing_system.Venues.Plan.{IsLaidOut}
use ticketing_system.Venues.Bulk.{at_place, all_fit, bulk_create_seats_lem}
use ticketing_system.Venues.Deletion.{delete_seat_unseats}
use ticketing_system.Samples.{start, item, with_order_of}

abbrev balcony : Sector
balcony = record { id = 2; venue_id = 1; name = "Balcony"; is_ga = false; base_capacity = 1 }

abbrev seat : Seat
seat = record { id = 31; sector_id = 2; row = 1; number = 1 }

abbrev wanted_twice : List SeatCreate
wanted_twice = record { row = 1; number = 2 } ∷ record { row = 1; number = 2 } ∷ []

abbrev wanted : List SeatCreate
wanted = record { row = 1; number = 1 } ∷ wanted_twice

abbrev requests : List VenueRequest
requests =
    creates_sector 1 (record { name = "Gallery"; base_capacity = 5; is_ga = false })
    ∷ creates_seats wanted 2
    ∷ renames_sector "Floor" 2
    ∷ deletes_seat 31
    ∷ []

start-IsLaidOut : IsLaidOut start
unfolding exists
start-IsLaidOut = record {
  venues = record { keys = tt; below = tt; distinct = tt };
  sectors = record {
    keys = (refl, (refl, tt));
    below = (omega arith, (omega arith, tt));
    distinct = (refl, (refl, tt));
  };
  seats = record { keys = (refl, tt); below = (omega arith, tt); distinct = (refl, tt) };
  seated = (refl, tt);
}

run_venues-IsLaidOut_example : IsLaidOut (run_venues true start requests)
run_venues-IsLaidOut_example = run_venues-IsLaidOut true start requests start-IsLaidOut

bulk_create_seats_lem_example :
    (is_ok (bulk_create_seats start wanted 2) ≡ all_fit wanted)
    × Ensures
        (λ r.
          All (λ place. exists (at_place 2 place) r.1.seats ≡ true) wanted
          × ((p : Seat → Bool) → exists p start.seats ≡ true → exists p r.1.seats ≡ true))
        (bulk_create_seats start wanted 2)
unfolding scalar
bulk_create_seats_lem_example =
    bulk_create_seats_lem start balcony (record { row = 1; number = 1 }) wanted_twice refl refl

-- The places above are created; a row of more than 32 bits is refused.
all_wanted_fit : all_fit wanted ≡ true
unfolding exists
all_wanted_fit = refl

too_far : all_fit (record { row = 3000000000; number = 1 } ∷ []) ≡ false
unfolding exists
too_far = refl

-- The ticket is for the seat.
abbrev seated_order : Database
seated_order = record (with_order_of OrderStatus.completed) {
  ticket_instances = record item { seat_id = some 31; event_ticket_type_id = 9 } ∷ [];
}

delete_seat_unseats_example :
    ((db' : Database) × (delete_seat true seated_order 31 ≡ ok (tt, db'))
      × (scalar (λ s. s.id == 31) db'.seats ≡ none)
      × (exists (sits_on 31) db'.ticket_instances ≡ false)
      × (scalar (λ r. r.id == 1) db'.ticket_instances
          ≡ some (record item { seat_id = none; event_ticket_type_id = 9 }))
      × (db'.tickets ≡ seated_order.tickets))
    × (delete_seat false seated_order 31 ≡ err (conflict "Seat in use"))
unfolding scalar
delete_seat_unseats_example =
    delete_seat_unseats seated_order seat
      (record item { seat_id = some 31; event_ticket_type_id = 9 }) refl refl refl
