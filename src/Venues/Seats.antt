-- ===== src/Venues/Seats.antt =====
-- What changes of seats keep of the plan.
use ticketing_system.Prelude.{
  ℕ, ◌≡◌, refl, Bool, true, false, not, ◌&&◌, List, [], ◌∷◌, some, ◌==◌, Bool-cases, inl, inr,
  subst, sym, ==_iff, ==_refl,
}
use ticketing_system.Errors.{ok, or_raise_ok, Ensures-bind, Ensures-raise_if, returned}
use ticketing_system.Table.{scalar, exists, update}
use ticketing_system.Table.Laws.{All-append, All-replace, All-delete, scalar_holds, scalar-All}
use ticketing_system.Table.Keys.{has_key, exists_found}
use ticketing_system.Table.Kept.{IsKept-append, IsKept-replace, IsKept-skip, IsKept-delete}
use ticketing_system.Schema.{Database, Sector, Seat}
use ticketing_system.Allocation.{get_sector}
use ticketing_system.Venues.{
  SeatCreate, SeatUpdate, check_sector_allows_seats, same_place, get_seat, check_seat, check_seats,
  insert_seat, flush_seat, new_seat, create_seat, skip_seat, bulk_add_seats, bulk_create_seats,
  moved, flush_moved, update_seat, flush_deletion, delete_seat, sits_on,
}
use ticketing_system.Venues.Plan.{
  same_place_sym, is_numbered, AreSeated, IsLaidOut, Keeps, flush-Keeps, get_sector_found,
  get_seat_found,
}

-- A sector that seats may be added to.
abbrev pub Seats : List Sector → ℕ → Type 0
Seats vs k = exists (λ v. v.id == k && not v.is_ga) vs ≡ true

pub Seats-allowed :
    (db : Database) (k : ℕ) (s : Sector)
    → get_sector db k ≡ ok s
    → s.is_ga ≡ false
    → Seats db.sectors s.id
Seats-allowed db k s e numbered =
    exists_found (λ v. v.id) (has_key (λ v. v.id) s.id) (λ v. v.id == s.id && not v.is_ga)
      db.sectors s (get_sector_found db k s e) (rw (==_refl s.id, numbered) refl)

pub Seats-at :
    (db : Database) (k : ℕ) (s : Sector)
    → get_sector db k ≡ ok s
    → s.is_ga ≡ false
    → Seats db.sectors k
unfolding get_sector
Seats-at db k s e numbered =
    let named = scalar_holds (λ v. v.id == k) db.sectors s (or_raise_ok _ _ s e) in
    subst (Seats db.sectors) ((==_iff s.id k).0 named) (Seats-allowed db k s e numbered)

-- A seat that stays in its sector.
pub seated_moved :
    (db : Database) (s s' : Seat)
    → s'.sector_id ≡ s.sector_id
    → scalar (has_key (λ t. t.id) s.id) db.seats ≡ some s
    → AreSeated db.sectors db.seats
    → AreSeated db.sectors (update (λ t. t.id == s.id) (λ _. s') db.seats)
seated_moved db s s' stays found h =
    let may = scalar-All (λ t. exists (is_numbered t) db.sectors ≡ true) _ db.seats s h found in
    let may' = subst (Seats db.sectors) (sym stays) may in
    All-replace (λ t. exists (is_numbered t) db.sectors ≡ true) (λ t. t.id == s.id) s' db.seats may'
      h

pub insert_seat-IsLaidOut :
    (db : Database) (s : Seat)
    → s.id ≡ db.next.seat_id
    → Seats db.sectors s.sector_id
    → exists (λ t. same_place t s) db.seats ≡ false
    → IsLaidOut db
    → IsLaidOut (insert_seat db s)
insert_seat-IsLaidOut db s id may new h = record {
  venues = h.venues;
  sectors = h.sectors;
  seats =
      IsKept-append (λ t. t.id) same_place same_place_sym db.next.seat_id s db.seats id new h.seats;
  seated =
      All-append (λ t. exists (is_numbered t) db.sectors ≡ true) db.seats (s ∷ []) h.seated
        (may, tt);
}

pub create_seat-Keeps :
    (db : Database) (schema : SeatCreate) (id : ℕ) → IsLaidOut db → Keeps (create_seat db schema id)
unfolding create_seat flush_seat check_sector_allows_seats
create_seat-Keeps db schema id h = Ensures-bind (get_sector db id) _ λ v e.
    Ensures-raise_if v.is_ga _ _ λ numbered.
      let s = new_seat db.next.seat_id id schema in
      flush-Keeps (flush_seat db s) _ s (
        Ensures-bind (check_seat s.row s.number) _ λ _ _.
          Ensures-raise_if (exists (λ t. same_place t s) db.seats) _ _
            λ new. returned (insert_seat-IsLaidOut db s refl (Seats-at db id v e numbered) new h))

pub bulk_add_seats-IsLaidOut :
    (db : Database) (k : ℕ) (schemas : List SeatCreate)
    → Seats db.sectors k
    → IsLaidOut db
    → IsLaidOut (bulk_add_seats db k schemas)
unfolding bulk_add_seats
bulk_add_seats-IsLaidOut db k [] may h = h
bulk_add_seats-IsLaidOut db k (schema ∷ schemas) may h =
    let s = new_seat db.next.seat_id k schema in
    elim (Bool-cases (exists (λ t. same_place t s) db.seats)) [
      | inl taken ↦ rw taken (
          bulk_add_seats-IsLaidOut (skip_seat db) k schemas may (record {
            venues = h.venues;
            sectors = h.sectors;
            seats = IsKept-skip (λ t. t.id) same_place db.next.seat_id db.seats h.seats;
            seated = h.seated;
          }))
      | inr new ↦ rw new (
          bulk_add_seats-IsLaidOut (insert_seat db s) k schemas may
            (insert_seat-IsLaidOut db s refl may new h))
    ]

pub bulk_create_seats-Keeps :
    (db : Database) (schemas : List SeatCreate) (id : ℕ)
    → IsLaidOut db
    → Keeps (bulk_create_seats db schemas id)
unfolding bulk_create_seats check_sector_allows_seats
bulk_create_seats-Keeps db schemas id h = Ensures-bind (get_sector db id) _ λ v e.
    Ensures-raise_if v.is_ga _ _ λ numbered. Ensures-bind (check_seats schemas) _ λ _ _.
      returned (bulk_add_seats-IsLaidOut db v.id schemas (Seats-allowed db id v e numbered) h)

pub update_seat-Keeps :
    (db : Database) (schema : SeatUpdate) (id : ℕ) → IsLaidOut db → Keeps (update_seat db schema id)
unfolding update_seat flush_moved check_sector_allows_seats
update_seat-Keeps db schema id h = Ensures-bind (get_seat db id) _ λ s e.
    Ensures-bind (get_sector db s.sector_id) _ λ v e'. Ensures-raise_if v.is_ga _ _ λ numbered.
      let s' = moved schema s in
      flush-Keeps (flush_moved db s') _ s' (
        Ensures-bind (check_seat s'.row s'.number) _ λ _ _.
          Ensures-raise_if (exists (λ t. not (t.id == s.id) && same_place t s') db.seats) _ _
            λ free. returned (record {
              venues = h.venues;
              sectors = h.sectors;
              seats =
                  IsKept-replace (λ t. t.id) same_place same_place_sym db.next.seat_id s s' db.seats
                    (get_seat_found db id s e) free h.seats;
              seated = seated_moved db s s' refl (get_seat_found db id s e) h.seated;
            }))

pub delete_seat-Keeps :
    (nullifies : Bool) (db : Database) (id : ℕ) → IsLaidOut db → Keeps (delete_seat nullifies db id)
unfolding delete_seat flush_deletion
delete_seat-Keeps nullifies db id h = Ensures-bind (get_seat db id) _ λ s e.
    flush-Keeps (flush_deletion nullifies db s.id) _ tt (
      Ensures-raise_if (not nullifies && exists (sits_on s.id) db.ticket_instances) _ _ λ _.
        returned (record {
          venues = h.venues;
          sectors = h.sectors;
          seats = IsKept-delete (λ t. t.id) same_place db.next.seat_id _ db.seats h.seats;
          seated = All-delete _ (λ t. t.id == s.id) db.seats h.seated;
        }))
