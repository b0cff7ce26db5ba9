-- ===== src/Venues/Plan.antt =====
-- The plan of the venues: who is where, and no place twice.
use ticketing_system.Prelude.{
  ℕ, ◌≡◌, Bool, true, not, ◌&&◌, List, some, arith, ◌==◌, All, subst, sym, ==_iff,
}
use ticketing_system.Prelude.Strings.{same_string_sym}
use ticketing_system.Errors.{
  Result, ok, ◌>>=◌, Error, or_raise_ok, on_integrity_error, Ensures, Ensures-bind, Ensures_ok,
  returned, Ensures-on_integrity_error,
}
use ticketing_system.Table.{scalar, exists}
use ticketing_system.Table.Laws.{scalar_holds}
use ticketing_system.Table.Keys.{has_key}
use ticketing_system.Table.Kept.{IsKept}
use ticketing_system.Schema.{Database, Venue, Sector, Seat}
use ticketing_system.Allocation.{get_sector}
use ticketing_system.Events.{get_venue}
use ticketing_system.Venues.{same_address, same_name, same_place, get_seat}

-- A row that is found by its key is the row of its key.
pub by_key {ℓ} :
    {A : Type ℓ} (key : A → ℕ) (k : ℕ) (r : A) (rs : List A)
    → scalar (has_key key k) rs ≡ some r
    → scalar (has_key key (key r)) rs ≡ some r
by_key key k r rs e =
    subst (λ j. scalar (has_key key j) rs ≡ some r)
      (sym ((==_iff (key r) k).0 (scalar_holds (has_key key k) rs r e))) e

pub same_address_sym : (v w : Venue) → same_address v w ≡ same_address w v
same_address_sym v w = ground arith

pub same_name_sym : (s t : Sector) → same_name s t ≡ same_name t s
same_name_sym s t = ground (arith, same_string_sym s.name t.name)

pub same_place_sym : (s t : Seat) → same_place s t ≡ same_place t s
same_place_sym s t = ground arith

-- The seat's sector exists and is not general admission.
abbrev pub is_numbered : Seat → Sector → Bool
is_numbered s v = v.id == s.sector_id && not v.is_ga

abbrev pub AreSeated : List Sector → List Seat → Type 0
AreSeated vs ss = All (λ s. exists (is_numbered s) vs ≡ true) ss

-- An address has one venue at most, a name one sector of a venue, a place one seat of a sector, and
-- seats stand in sectors that are not general admission.
pub record IsLaidOut (db : Database) : Type 0 where
  pub venues : IsKept (λ v. v.id) same_address db.next.venue_id db.venues
  pub sectors : IsKept (λ s. s.id) same_name db.next.sector_id db.sectors
  pub seats : IsKept (λ s. s.id) same_place db.next.seat_id db.seats
  pub seated : AreSeated db.sectors db.seats

abbrev pub Keeps {ℓ} : {A : Type ℓ} → Result (A × Database) → Type ℓ
Keeps r = Ensures (λ p. IsLaidOut p.1) r

-- What a flush that may be refused keeps.
pub flush-Keeps :
    {A : Type 0} (r : Result Database) (e : Error) (a : A)
    → Ensures IsLaidOut r
    → Keeps (on_integrity_error r e >>= λ db1. ok (a, db1))
flush-Keeps r e a h =
    Ensures-bind (on_integrity_error r e) _
      λ db1 flushed. returned (Ensures_ok _ (Ensures-on_integrity_error r e h) flushed)

-- What is found by its key.
pub get_sector_found :
    (db : Database) (k : ℕ) (s : Sector)
    → get_sector db k ≡ ok s
    → scalar (has_key (λ t. t.id) s.id) db.sectors ≡ some s
unfolding get_sector
get_sector_found db k s e = by_key (λ t. t.id) k s db.sectors (or_raise_ok _ _ s e)

pub get_venue_found :
    (db : Database) (k : ℕ) (v : Venue)
    → get_venue db k ≡ ok v
    → scalar (has_key (λ w. w.id) v.id) db.venues ≡ some v
unfolding get_venue
get_venue_found db k v e = by_key (λ w. w.id) k v db.venues (or_raise_ok _ _ v e)

pub get_seat_found :
    (db : Database) (k : ℕ) (s : Seat)
    → get_seat db k ≡ ok s
    → scalar (has_key (λ t. t.id) s.id) db.seats ≡ some s
unfolding get_seat
get_seat_found db k s e = by_key (λ t. t.id) k s db.seats (or_raise_ok _ _ s e)
