-- ===== src/Booking/Cleanup/Stock.antt =====
-- The clean-up gives back to each general admission sector what it deletes.
use ticketing_system.Prelude.{
  ℕ, ◌+◌, ◌≡◌, refl, true, false, ◌&&◌, List, [], ◌∷◌, some, none, Option, arith, ◌==◌,
  if◌then◌else◌, inl, inr, Bool-cases, subst, sym, ap, ◌∙◌, ==_iff, and_right,
}
use ticketing_system.Table.{scalar, exists, count, update, delete, Unique}
use ticketing_system.Table.Laws.{count_ext, count-delete}
use ticketing_system.Table.Keys.{Unique-update}
use ticketing_system.Schema.{Database, Sector, EventSector}
use ticketing_system.Booking.Orders.{return_tickets, ga_increment}
use ticketing_system.Booking.Orders.Stock.{left-return, is_general-return}
use ticketing_system.Booking.Cleanup.{Stats, is_in, is_ga_sector, released_rows, release_rows}
use ticketing_system.Invariants.{in_sector, left_in, is_general, counts_tickets, stock}

pub give_back : List (ℕ × ℕ) → List EventSector → List EventSector
give_back [] ss = ss
give_back ((j, n) ∷ rows) ss = give_back rows (update (λ s. s.id == j) (return_tickets n) ss)

-- The loop changes the sectors alone.
pub release_rows-sectors :
    (db : Database) (stats : Stats) (rows : List (ℕ × ℕ))
    → (release_rows db stats rows).0 ≡ record db { event_sectors = give_back rows db.event_sectors }
unfolding release_rows give_back ga_increment
release_rows-sectors db stats [] = refl
release_rows-sectors db stats ((j, n) ∷ rows) =
    release_rows-sectors
      (record db { event_sectors = update (λ s. s.id == j) (return_tickets n) db.event_sectors })
      (record stats { ga_released = stats.ga_released + n }) rows

total_for : ℕ → List (ℕ × ℕ) → ℕ
total_for k [] = 0
total_for k ((j, n) ∷ rows) = (if j == k then n else 0) + total_for k rows

pub is_general-give_back :
    (vs : List Sector) (rows : List (ℕ × ℕ)) (ss : List EventSector) (k : ℕ)
    → is_general vs (give_back rows ss) k ≡ is_general vs ss k
unfolding give_back
is_general-give_back vs [] ss k = refl
is_general-give_back vs ((j, n) ∷ rows) ss k =
    is_general-give_back vs rows (update (λ s. s.id == j) (return_tickets n) ss) k
    ∙ is_general-return vs ss j k n

left-give_back :
    (vs : List Sector) (rows : List (ℕ × ℕ)) (ss : List EventSector) (k : ℕ)
    → is_general vs ss k ≡ true
    → left_in (give_back rows ss) k ≡ left_in ss k + total_for k rows
unfolding give_back total_for
left-give_back vs [] ss k g = omega arith
left-give_back vs ((j, n) ∷ rows) ss k g =
    let ss' = update (λ s. s.id == j) (return_tickets n) ss in
    omega (
      arith,
      left-give_back vs rows ss' k (is_general-return vs ss j k n ∙ g),
      left-return vs ss j k n g,
    )

pub give_back-Unique :
    (rows : List (ℕ × ℕ)) (ss : List EventSector)
    → Unique (λ s. s.id) ss
    → Unique (λ s. s.id) (give_back rows ss)
unfolding give_back
give_back-Unique [] ss u = u
give_back-Unique ((j, n) ∷ rows) ss u =
    give_back-Unique rows _
      (Unique-update (λ s. s.id) (λ s. s.id == j) (return_tickets n) ss (λ r. ground arith) u)

module _ (db : Database) (order_id k : ℕ) where
  -- A sector that is not listed gets nothing.
  total_for-absent :
      (ss : List EventSector)
      → exists (λ s. s.id == k) ss ≡ false
      → total_for k (released_rows db order_id ss) ≡ 0
  unfolding released_rows total_for exists
  total_for-absent [] h = refl
  total_for-absent (s ∷ ss) h = ground (arith, total_for-absent ss)

  -- A general admission sector gets the number of the order's instances in it.
  total_for-released :
      (ss : List EventSector) (s : EventSector)
      → Unique (λ s. s.id) ss
      → scalar (λ s. s.id == k) ss ≡ some s
      → is_ga_sector db s ≡ true
      → total_for k (released_rows db order_id ss) ≡ count (is_in db order_id k) db.ticket_instances
  unfolding released_rows total_for scalar
  total_for-released [] s u e g = cc
  total_for-released (x ∷ ss) s u e g = elim (Bool-cases (x.id == k)) [
    | inl hit ↦
        let same_id = (==_iff x.id k).0 hit in
        let gone = subst (λ j. exists (λ s. s.id == j) ss ≡ false) same_id u.0 in
        let same : x ≡ s = ground arith in
        let ga = subst (λ s. is_ga_sector db s ≡ true) (sym same) g in
        let counts = ap (λ j. count (is_in db order_id j) db.ticket_instances) same_id in
        ground (arith, total_for-absent ss gone)
    | inr miss ↦ ground (arith, total_for-released ss s u.1)
  ]

  -- What stands in the sector and is not in the order stays sold.
  sold-delete :
      count
          (in_sector db.event_ticket_types k)
          (delete (λ t. t.order_id == order_id) db.ticket_instances)
        + count (is_in db order_id k) db.ticket_instances
      ≡ count (in_sector db.event_ticket_types k) db.ticket_instances
  sold-delete = omega (
    arith,
    count-delete (in_sector db.event_ticket_types k) (λ t. t.order_id == order_id)
        db.ticket_instances,
    count_ext (λ t. in_sector db.event_ticket_types k t && t.order_id == order_id)
        (is_in db order_id k) db.ticket_instances (λ t. ground arith),
  )

  general-row :
      (o : Option EventSector)
      → scalar (λ s. s.id == k) db.event_sectors ≡ o
      → counts_tickets db.sectors o ≡ true
      → Unique (λ s. s.id) db.event_sectors
      → total_for k (released_rows db order_id db.event_sectors)
        ≡ count (is_in db order_id k) db.ticket_instances
  general-row none e g u = cc
  general-row (some s) e g u = total_for-released db.event_sectors s u e (and_right _ _ g)

  -- The stock of a sector that is sold by count, after the order's tickets went back and its
  -- instances were deleted.
  pub released-stock :
      Unique (λ s. s.id) db.event_sectors
      → is_general db.sectors db.event_sectors k ≡ true
      → left_in (give_back (released_rows db order_id db.event_sectors) db.event_sectors) k
          + count
              (in_sector db.event_ticket_types k)
              (delete (λ t. t.order_id == order_id) db.ticket_instances)
        ≡ stock db k
  released-stock u g = omega (
    arith,
    left-give_back db.sectors (released_rows db order_id db.event_sectors) db.event_sectors k g,
    general-row _ refl g u,
    sold-delete,
  )
