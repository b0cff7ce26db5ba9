-- ===== src/Venues/Bulk.antt =====
-- Many seats at once.
use ticketing_system.Prelude.{
  ℕ, ◌≡◌, refl, Bool, true, false, not, ◌&&◌, ltb, List, [], ◌∷◌, arith, All, ◌∙◌, Bool-cases, inl,
  inr, some, ◌==◌,
}
use ticketing_system.Errors.{Result, ok, err, ◌>>◌, Ensures, Ensures-bind, returned, is_ok}
use ticketing_system.Table.{scalar, exists}
use ticketing_system.Table.Laws.{exists-append_either}
use ticketing_system.Schema.{Database, Seat, Sector, integer_limit}
use ticketing_system.Allocation.{get_sector}
use ticketing_system.Venues.{
  SeatCreate, same_place, new_seat, put_seat, bulk_add_seats, bulk_create_seats,
  check_sector_allows_seats, check_seat, check_seats,
}

-- One row of the statement: what is there stays, and its place is taken.
put_seat_keeps :
    (p : Seat → Bool) (db : Database) (s : Seat)
    → exists p db.seats ≡ true
    → exists p (put_seat db s).seats ≡ true
put_seat_keeps p db s h = elim (Bool-cases (exists (λ t. same_place t s) db.seats)) [
  | inl taken ↦ rw taken h
  | inr new ↦ rw (new, exists-append_either p db.seats s, h) refl
]

put_seat_there :
    (db : Database) (s : Seat) → exists (λ t. same_place t s) (put_seat db s).seats ≡ true
put_seat_there db s = elim (Bool-cases (exists (λ t. same_place t s) db.seats)) [
  | inl taken ↦ rw (taken, taken) refl
  | inr new ↦ rw (new, exists-append_either (λ t. same_place t s) db.seats s) (ground arith)
]

bulk_keeps :
    (p : Seat → Bool) (db : Database) (k : ℕ) (schemas : List SeatCreate)
    → exists p db.seats ≡ true
    → exists p (bulk_add_seats db k schemas).seats ≡ true
unfolding bulk_add_seats
bulk_keeps p db k [] h = h
bulk_keeps p db k (schema ∷ schemas) h =
    let s = new_seat db.next.seat_id k schema in
    bulk_keeps p (put_seat db s) k schemas (put_seat_keeps p db s h)

-- The place that the schema asks for, in the sector.
abbrev pub at_place : ℕ → SeatCreate → Seat → Bool
at_place k schema t = same_place t (new_seat 0 k schema)

bulk_adds :
    (db : Database) (k : ℕ) (schemas : List SeatCreate)
    → All (λ schema. exists (at_place k schema) (bulk_add_seats db k schemas).seats ≡ true) schemas
unfolding bulk_add_seats
bulk_adds db k [] = tt
bulk_adds db k (schema ∷ schemas) =
    let s = new_seat db.next.seat_id k schema in
    (
      bulk_keeps (at_place k schema) (put_seat db s) k schemas (put_seat_there db s),
      bulk_adds (put_seat db s) k schemas,
    )

-- A positive row and number within 32 bits with sign.
abbrev pub fits : SeatCreate → Bool
fits schema =
    (ltb 0 schema.row && ltb schema.row integer_limit)
    && (ltb 0 schema.number && ltb schema.number integer_limit)

abbrev pub all_fit : List SeatCreate → Bool
all_fit schemas = not (exists (λ schema. not (fits schema)) schemas)

check_seats_lem : (schemas : List SeatCreate) → is_ok (check_seats schemas) ≡ all_fit schemas
unfolding check_seats check_seat exists
check_seats_lem [] = refl
check_seats_lem (schema ∷ schemas) = ground (arith, check_seats_lem schemas)

is_ok-then : {V : Type 0} (m : Result (Unit {0})) (v : V) → is_ok (m >> ok v) ≡ is_ok m
is_ok-then (ok u) v = refl
is_ok-then (err e) v = refl

-- In a sector that is found and is not general admission the bulk creation of at least one seat returns
-- exactly if every row and number asked for is positive and within 32 bits with sign, however often a
-- seat is asked for and whether or not it is there. Where it returns, there is a seat at every place
-- asked for, and whatever could be said of some seat before, still can.
pub bulk_create_seats_lem :
    (db : Database) (sector : Sector) (schema : SeatCreate) (schemas : List SeatCreate)
    → scalar (λ s. s.id == sector.id) db.sectors ≡ some sector
    → sector.is_ga ≡ false
    → let wanted = schema ∷ schemas in
      (is_ok (bulk_create_seats db wanted sector.id) ≡ all_fit wanted)
      × Ensures
          (λ r.
            All (λ place. exists (at_place sector.id place) r.1.seats ≡ true) wanted
            × ((p : Seat → Bool) → exists p db.seats ≡ true → exists p r.1.seats ≡ true))
          (bulk_create_seats db wanted sector.id)
unfolding bulk_create_seats get_sector check_sector_allows_seats
bulk_create_seats_lem db sector schema schemas found numbered =
    let wanted = schema ∷ schemas in
    rw (found, numbered)
      (
        is_ok-then (check_seats wanted) _ ∙ check_seats_lem wanted,
        Ensures-bind (check_seats wanted) _ λ _ _.
            returned (bulk_adds db sector.id wanted, λ p h. bulk_keeps p db sector.id wanted h),
      )
