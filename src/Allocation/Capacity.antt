-- ===== src/Allocation/Capacity.antt =====
-- What a new sector of an event may sell.
use ticketing_system.Prelude.{
  ℕ, ◌≤◌, ◌≡◌, refl, false, not, List, [], ◌∷◌, ◌++◌, some, none, arith, ◌==◌, if◌then◌else◌, subst,
  sym, Bool-cases, inl, inr,
}
use ticketing_system.Errors.{
  Ensures, Ensures-bind, Ensures-raise_if, Ensures_ok, Ensures-on_integrity_error, returned,
  on_integrity_error, or_raise_ok,
}
use ticketing_system.Table.{scalar, exists, count}
use ticketing_system.Table.Laws.{count-append, count-exists}
use ticketing_system.Schema.{Database, Event, Sector, EventSector}
use ticketing_system.Allocation.{
  is_pair, get_sector, ensure_venue_match, new_event_sector, flush_event_sector,
  create_event_sector,
}

-- uq_event_sector
abbrev pub HasOnePair : List EventSector → Type 0
HasOnePair ss = (event_id sector_id : ℕ) → count (is_pair event_id sector_id) ss ≤ 1

HasOnePair-append :
    (ss : List EventSector) (s : EventSector)
    → exists (is_pair s.event_id s.sector_id) ss ≡ false
    → HasOnePair ss
    → HasOnePair (ss ++ s ∷ [])
unfolding count
HasOnePair-append ss s free h e v =
    rw (count-append (is_pair e v) ss (s ∷ [])) (elim (Bool-cases (is_pair e v s)) [
      | inl hit ↦
          let same_event : s.event_id ≡ e = ground (arith, hit) in
          let same_sector : s.sector_id ≡ v = ground (arith, hit) in
          let none_there =
            subst (λ j. exists (is_pair e j) ss ≡ false) same_sector
              (subst (λ i. exists (is_pair i s.sector_id) ss ≡ false) same_event free) in
          rw hit (omega (arith, count-exists (is_pair e v) ss none_there))
      | inr miss ↦ rw miss (omega (arith, h e v))
    ])

-- The new row, for the sector asked for, which lies at the event's venue.
pub record Allocated (db : Database) (sector_id : ℕ) (event : Event) (r : EventSector × Database)
    : Type 0 where
  pub sector : Sector
  pub found : scalar (λ s. s.id == sector_id) db.sectors ≡ some sector
  pub at_venue : event.venue_id ≡ sector.venue_id
  pub for_sector : (r.0.event_id ≡ event.id) × (r.0.sector_id ≡ sector.id)
  pub for_sale : r.0.tickets_left ≡ (if sector.is_ga then some sector.base_capacity else none)
  pub added : r.1.event_sectors ≡ db.event_sectors ++ r.0 ∷ []
  pub one_pair : HasOnePair r.1.event_sectors

flush_event_sector-written :
    (db : Database) (s : EventSector)
    → Ensures
        (λ (db' : Database).
          (exists (is_pair s.event_id s.sector_id) db.event_sectors ≡ false)
          × (db'.event_sectors ≡ db.event_sectors ++ s ∷ []))
        (flush_event_sector db s)
unfolding flush_event_sector
flush_event_sector-written db s =
    Ensures-raise_if (exists (is_pair s.event_id s.sector_id) db.event_sectors) _ _
      λ free. returned (free, refl)

-- If no event has a sector twice, a call that adds a sector to an event has found the sector asked for
-- in the database, at the venue of the event, and the new row is for the two: it sells the sector's base
-- capacity if that is general admission and has no count otherwise. It stands behind the old rows, and
-- again no event has a sector twice.
pub create_event_sector-Allocated :
    (db : Database) (sector_id : ℕ) (event : Event)
    → HasOnePair db.event_sectors
    → Ensures (Allocated db sector_id event) (create_event_sector db sector_id event)
unfolding create_event_sector get_sector ensure_venue_match
create_event_sector-Allocated db sector_id event one =
    Ensures-bind (get_sector db sector_id) _ λ sector e.
      Ensures-raise_if (not (event.venue_id == sector.venue_id)) _ _ λ matches.
        let s = new_event_sector db.next.event_sector_id event sector in
        Ensures-bind (on_integrity_error (flush_event_sector db s) _) _ λ db1 flushed.
          let written =
            Ensures_ok _ (Ensures-on_integrity_error _ _ (flush_event_sector-written db s))
              flushed in
          returned (record {
            sector = sector;
            found = or_raise_ok _ _ sector e;
            at_venue = ground (arith, matches);
            for_sector = (refl, refl);
            for_sale = refl;
            added = written.1;
            one_pair =
                subst HasOnePair (sym written.1)
                  (HasOnePair-append db.event_sectors s written.0 one);
          })
