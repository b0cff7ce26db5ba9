-- ===== src/Booking/Orders/Stock.antt =====
-- What taking a ticket from a sector and giving tickets back do to the number left.
use ticketing_system.Prelude.{
  ℕ, ◌+◌, ◌≡◌, Bool, true, List, Option, some, arith, ◌==◌, if◌then◌else◌, inl, inr, Bool-cases,
  Option-cases, ==_iff, subst, and_left,
}
use mathlib.Core.Option
use ticketing_system.Table.{scalar, update, rewrite_row, Unique}
use ticketing_system.Table.Laws.{scalar_holds, scalar-update}
use ticketing_system.Table.Keys.{scalar-key}
use ticketing_system.Schema.{Sector, EventSector}
use ticketing_system.Booking.Orders.{is_available, take_ticket, return_tickets}
use ticketing_system.Invariants.{left_in, is_general}

abbrev row : List EventSector → ℕ → Option EventSector
row ss k = scalar (λ s. s.id == k) ss

abbrev has_id : ℕ → EventSector → Bool
has_id k s = s.id == k

row-take :
    (ss : List EventSector) (j k : ℕ)
    → row (update (is_available j) take_ticket ss) k
      ≡ Option.map (rewrite_row (is_available j) take_ticket) (row ss k)
row-take ss j k = scalar-update (has_id k) (is_available j) take_ticket ss (λ r. ground arith)

row-return :
    (ss : List EventSector) (j k n : ℕ)
    → row (update (has_id j) (return_tickets n) ss) k
      ≡ Option.map (rewrite_row (has_id j) (return_tickets n)) (row ss k)
row-return ss j k n = scalar-update (has_id k) (has_id j) (return_tickets n) ss (λ r. ground arith)

-- The row of the key is the one that gave its ticket.
row_available :
    (ss : List EventSector) (j : ℕ) (s : EventSector)
    → Unique (λ s. s.id) ss
    → scalar (is_available j) ss ≡ some s
    → (row ss j ≡ some s) × (is_available j s ≡ true)
row_available ss j s u e =
    let available = scalar_holds (is_available j) ss s e in
    (
      subst (λ k. row ss k ≡ some s) ((==_iff s.id j).0 (and_left _ _ available))
          (scalar-key (λ s. s.id) (is_available j) ss s u e),
      available,
    )

-- The sector that gives a ticket has one less, any other the same.
pub left-take :
    (ss : List EventSector) (j k : ℕ) (s : EventSector)
    → Unique (λ s. s.id) ss
    → scalar (is_available j) ss ≡ some s
    → left_in (update (is_available j) take_ticket ss) k + (if j == k then 1 else 0) ≡ left_in ss k
left-take ss j k s u e = elim (Bool-cases (j == k)) [
  | inl same ↦
      let found = row_available ss j s u e in
      rw (← (==_iff j k).0 same, row-take ss j j, found.0) (ground (arith, found.1))
  | inr other ↦ rw (row-take ss j k) (elim (Option-cases (row ss k)) [
    | inl e ↦ rw (e, other) (omega arith)
    | inr (r, e) ↦ rw e (ground (arith, scalar_holds (has_id k) ss r e))
  ])
]

pub is_general-take :
    (vs : List Sector) (ss : List EventSector) (j k : ℕ)
    → is_general vs (update (is_available j) take_ticket ss) k ≡ is_general vs ss k
is_general-take vs ss j k = rw (row-take ss j k) (ground arith)

-- Tickets that come back are added to a sector that is sold by count.
pub left-return :
    (vs : List Sector) (ss : List EventSector) (j k n : ℕ)
    → is_general vs ss k ≡ true
    → left_in (update (has_id j) (return_tickets n) ss) k ≡ left_in ss k + (if j == k then n else 0)
left-return vs ss j k n g = rw (row-return ss j k n) (elim (Option-cases (row ss k)) [
  | inl e ↦ absurd (ground arith)
  | inr (r, e) ↦ rw e (ground (arith, scalar_holds (has_id k) ss r e))
])

pub is_general-return :
    (vs : List Sector) (ss : List EventSector) (j k n : ℕ)
    → is_general vs (update (has_id j) (return_tickets n) ss) k ≡ is_general vs ss k
is_general-return vs ss j k n = rw (row-return ss j k n) (ground arith)
