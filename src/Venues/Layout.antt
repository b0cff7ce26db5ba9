-- ===== src/Venues/Layout.antt =====
-- What every history of requests keeps of the plan.
use ticketing_system.Prelude.{Bool, List, [], ◌∷◌}
use ticketing_system.Errors.{get_db-Keeps}
use ticketing_system.Schema.{Database}
use ticketing_system.Venues.{
  VenueRequest, creates_venue, renames_venue, creates_sector, renames_sector, creates_seat,
  creates_seats, moves_seat, deletes_seat, venue_step, run_venues,
}
use ticketing_system.Venues.Plan.{IsLaidOut}
use ticketing_system.Venues.Sectors.{
  create_venue-Keeps, create_sector-Keeps, update_venue-Keeps, update_sector-Keeps,
}
use ticketing_system.Venues.Seats.{
  create_seat-Keeps, bulk_create_seats-Keeps, update_seat-Keeps, delete_seat-Keeps,
}

module _ (nullifies : Bool) where
  venue_step-IsLaidOut :
      (db : Database) (r : VenueRequest) → IsLaidOut db → IsLaidOut (venue_step nullifies db r)
  unfolding venue_step
  venue_step-IsLaidOut db (creates_venue schema) h =
      get_db-Keeps IsLaidOut db _ h (create_venue-Keeps db schema h)
  venue_step-IsLaidOut db (renames_venue name id) h =
      get_db-Keeps IsLaidOut db _ h (update_venue-Keeps db name id h)
  venue_step-IsLaidOut db (creates_sector id schema) h =
      get_db-Keeps IsLaidOut db _ h (create_sector-Keeps db id schema h)
  venue_step-IsLaidOut db (renames_sector name id) h =
      get_db-Keeps IsLaidOut db _ h (update_sector-Keeps db name id h)
  venue_step-IsLaidOut db (creates_seat schema id) h =
      get_db-Keeps IsLaidOut db _ h (create_seat-Keeps db schema id h)
  venue_step-IsLaidOut db (creates_seats schemas id) h =
      get_db-Keeps IsLaidOut db _ h (bulk_create_seats-Keeps db schemas id h)
  venue_step-IsLaidOut db (moves_seat schema id) h =
      get_db-Keeps IsLaidOut db _ h (update_seat-Keeps db schema id h)
  venue_step-IsLaidOut db (deletes_seat id) h =
      get_db-Keeps IsLaidOut db _ h (delete_seat-Keeps nullifies db id h)

  -- Whatever an administrator does to venues, sectors and seats, if it was so before: an address has
  -- one venue at most, a name one sector of a venue, a place one seat of a sector, keys are unique and
  -- below the next, and every seat stands in a sector that is not general admission.
  pub run_venues-IsLaidOut :
      (db : Database) (rs : List VenueRequest)
      → IsLaidOut db
      → IsLaidOut (run_venues nullifies db rs)
  unfolding run_venues
  run_venues-IsLaidOut db [] h = h
  run_venues-IsLaidOut db (r ∷ rs) h =
      run_venues-IsLaidOut (venue_step nullifies db r) rs (venue_step-IsLaidOut db r h)
