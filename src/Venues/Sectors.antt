-- ===== src/Venues/Sectors.antt =====
-- What changes of venues and sectors keep of the plan.
use ticketing_system.Prelude.{ℕ, refl, not, ◌&&◌, String, ltb, ◌==◌}
use ticketing_system.Errors.{Ensures-bind, Ensures-raise_if, returned}
use ticketing_system.Table.{exists}
use ticketing_system.Table.Laws.{exists-append_true, All-map}
use ticketing_system.Table.Kept.{IsKept-append, IsKept-replace, found_free, exists-replace_true}
use ticketing_system.Schema.{Database, Sector, integer_limit}
use ticketing_system.Addresses.{get_address}
use ticketing_system.Allocation.{get_sector}
use ticketing_system.Events.{get_venue}
use ticketing_system.Venues.{
  VenueCreate, SectorCreate, same_address, same_name, flush_venue, new_venue, create_venue,
  update_venue, flush_sector, new_sector, create_sector, flush_renamed, update_sector,
}
use ticketing_system.Venues.Plan.{
  same_address_sym, same_name_sym, is_numbered, IsLaidOut, Keeps, flush-Keeps, get_sector_found,
  get_venue_found,
}

pub create_venue-Keeps :
    (db : Database) (schema : VenueCreate) → IsLaidOut db → Keeps (create_venue db schema)
unfolding create_venue flush_venue
create_venue-Keeps db schema h =
    let v = new_venue db.next.venue_id schema in
    Ensures-bind (get_address db schema.address_id) _ λ _ _. flush-Keeps (flush_venue db v) _ v (
      Ensures-raise_if (exists (λ w. same_address w v) db.venues) _ _ λ new. returned (record {
        venues =
            IsKept-append (λ v. v.id) same_address same_address_sym db.next.venue_id v db.venues
              refl new h.venues;
        sectors = h.sectors;
        seats = h.seats;
        seated = h.seated;
      }))

pub create_sector-Keeps :
    (db : Database) (venue_id : ℕ) (schema : SectorCreate)
    → IsLaidOut db
    → Keeps (create_sector db venue_id schema)
unfolding create_sector flush_sector
create_sector-Keeps db venue_id schema h =
    let s = new_sector db.next.sector_id venue_id schema in
    Ensures-bind (get_venue db venue_id) _ λ _ _. flush-Keeps (flush_sector db s) _ s (
      Ensures-raise_if (not (ltb s.base_capacity integer_limit)) _ _ λ _.
        Ensures-raise_if (not (ltb 0 s.base_capacity)) _ _ λ _.
          Ensures-raise_if (exists (λ t. same_name t s) db.sectors) _ _ λ new. returned (record {
            venues = h.venues;
            sectors =
                IsKept-append (λ s. s.id) same_name same_name_sym db.next.sector_id s db.sectors
                  refl new h.sectors;
            seats = h.seats;
            seated =
                All-map _ _ db.seats (λ t. exists-append_true (is_numbered t) db.sectors s)
                  h.seated;
          }))

pub update_venue-Keeps :
    (db : Database) (name : String) (id : ℕ) → IsLaidOut db → Keeps (update_venue db name id)
unfolding update_venue
update_venue-Keeps db name id h = Ensures-bind (get_venue db id) _ λ v e. returned (record {
  venues =
      IsKept-replace (λ w. w.id) same_address same_address_sym db.next.venue_id v
        (record v { name = name }) db.venues (get_venue_found db id v e)
        (found_free (λ w. w.id) same_address same_address_sym v db.venues h.venues.distinct
          (get_venue_found db id v e))
        h.venues;
  sectors = h.sectors;
  seats = h.seats;
  seated = h.seated;
})

pub update_sector-Keeps :
    (db : Database) (name : String) (id : ℕ) → IsLaidOut db → Keeps (update_sector db name id)
unfolding update_sector flush_renamed
update_sector-Keeps db name id h = Ensures-bind (get_sector db id) _ λ s e.
    let s' : Sector = record s { name = name } in
    let found = get_sector_found db id s e in
    flush-Keeps (flush_renamed db s') _ s' (
      Ensures-raise_if (exists (λ t. not (t.id == s.id) && same_name t s') db.sectors) _ _ λ free.
        returned (record {
          venues = h.venues;
          sectors =
              IsKept-replace (λ t. t.id) same_name same_name_sym db.next.sector_id s s' db.sectors
                found free h.sectors;
          seats = h.seats;
          seated =
              All-map _ _ db.seats
                (λ t.
                  exists-replace_true (λ v. v.id) (is_numbered t) s.id s s' db.sectors
                    h.sectors.keys found (λ fits. fits))
                h.seated;
        }))
