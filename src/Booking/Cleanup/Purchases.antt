-- ===== src/Booking/Cleanup/Purchases.antt =====
-- The clean-up leaves what is bought alone.
use mathlib.Core.Option
use ticketing_system.Prelude.{
  if◌then◌else◌, ℕ, ◌≡◌, refl, Bool, true, false, ◌&&◌, List, [], ◌∷◌, some, none, arith, ◌==◌,
  Bool-cases, Option-cases, inl, inr, subst, sym, ==_iff, All, length, ◌-◌,
}
use ticketing_system.Errors.{
  Ensures, Ensures-map, Ensures_ok, Ensures-bind, Ensures-raise_if, returned,
}
use ticketing_system.Table.{scalar, exists, update}
use ticketing_system.Table.Laws.{scalar-update, exists_mono, All-map}
use ticketing_system.Table.Keys.{exists_found}
use ticketing_system.Schema.{Database, Order, OrderStatus, TicketInstance, Ticket}
use ticketing_system.Booking.Checkout.{with_status}
use ticketing_system.Booking.Cleanup.{
  Stats, no_stats, released_rows, delete_instances, cancel_order, cancel_orders, pending_ids,
  cleanup_expired_reservations,
}
use ticketing_system.Booking.Cleanup.Stock.{give_back, release_rows-sectors}
use ticketing_system.Booking.Cleanup.Consistent.{without_instances}
use ticketing_system.Booking.Cleanup.Selected.{IsOpen, ids-IsOpen}
use ticketing_system.Invariants.{IsConsistent}
use ticketing_system.Invariants.Purchases.{
  Purchases, Purchases-refl, Purchases-trans, is_of, is_completed, scalar-delete,
}

-- A ticket of the order's instances.
abbrev is_issued_for : Database → ℕ → Ticket → Bool
is_issued_for db order_id k =
    exists (λ t. t.id == k.ticket_instance_id && t.order_id == order_id) db.ticket_instances

delete_instances-unissued :
    (db : Database) (order_id : ℕ)
    → Ensures
        (λ db'.
          (exists (is_issued_for db order_id) db.tickets ≡ false)
          × (db' ≡ without_instances db order_id))
        (delete_instances db order_id)
unfolding delete_instances
delete_instances-unissued db order_id =
    Ensures-raise_if (exists (is_issued_for db order_id) db.tickets) _ _
      λ unissued. returned (unissued, refl)

abbrev set_cancelled : ℕ → List Order → List Order
set_cancelled order_id os = update (λ o. o.id == order_id) (with_status OrderStatus.cancelled) os

cancelled_row :
    (os : List Order) (order_id k : ℕ)
    → scalar (λ r. r.id == k) (set_cancelled order_id os)
      ≡ Option.map
          (λ o. if o.id == order_id then with_status OrderStatus.cancelled o else o)
          (scalar (λ r. r.id == k) os)
cancelled_row os order_id k =
    scalar-update (λ r. r.id == k) (λ o. o.id == order_id) (with_status OrderStatus.cancelled) os
      (λ r. ground arith)

-- The order of another key, or one that is not completed at this key.
set_cancelled_keeps :
    (os : List Order) (order_id : ℕ) (o : Order)
    → IsOpen os order_id
    → is_completed o ≡ true
    → scalar (λ r. r.id == o.id) os ≡ some o
    → scalar (λ r. r.id == o.id) (set_cancelled order_id os) ≡ some o
set_cancelled_keeps os order_id o open_row done row = elim (Bool-cases (o.id == order_id)) [
  | inl hit ↦
      let there =
        subst (λ j. scalar (λ r. r.id == j) os ≡ some o) ((==_iff o.id order_id).0 hit) row in
      absurd (ground (arith, open_row o there, done))
  | inr miss ↦ rw (cancelled_row os order_id o.id, row, miss) refl
]

set_cancelled-IsOpen :
    (os : List Order) (order_id i : ℕ) → IsOpen os i → IsOpen (set_cancelled order_id os) i
set_cancelled-IsOpen os order_id i open_row o e = elim (Option-cases (scalar (λ r. r.id == i) os)) [
  | inl missing ↦
      let row : scalar (λ r. r.id == i) (set_cancelled order_id os) ≡ none =
        rw (cancelled_row os order_id i, missing) refl in
      cc
  | inr (r, found) ↦ elim (Bool-cases (r.id == order_id)) [
    | inl hit ↦
        let row : scalar (λ r. r.id == i) (set_cancelled order_id os)
            ≡ some (with_status OrderStatus.cancelled r) =
          rw (cancelled_row os order_id i, found, hit) refl in
        let same : with_status OrderStatus.cancelled r ≡ o = cc in
        subst (λ d. is_completed d ≡ false) same refl
    | inr miss ↦
        let row : scalar (λ r. r.id == i) (set_cancelled order_id os) ≡ some r =
          rw (cancelled_row os order_id i, found, miss) refl in
        let same : r ≡ o = cc in subst (λ d. is_completed d ≡ false) same (open_row r found)
  ]
]

-- An instance with a ticket is of another order.
remaining :
    (db : Database) (order_id : ℕ) (t : TicketInstance)
    → exists (is_issued_for db order_id) db.tickets ≡ false
    → exists (is_of t.id) db.tickets ≡ true
    → scalar (λ r. r.id == t.id) db.ticket_instances ≡ some t
    → (t.order_id == order_id) ≡ false
remaining db order_id t unissued issued row = elim (Bool-cases (t.order_id == order_id)) [
  | inr miss ↦ miss
  | inl hit ↦
      let bad =
        exists_mono (is_of t.id) (is_issued_for db order_id) db.tickets
          (λ k of_t.
            exists_found (λ t. t.id) (λ r. r.id == t.id)
              (λ r. r.id == k.ticket_instance_id && r.order_id == order_id) db.ticket_instances t
              row (ground (arith, hit, of_t)))
          issued in
      absurd (ground (arith, bad, unissued))
]

-- What one cancelled order leaves.
record Leaves (db : Database) (r : Database × Stats) : Type 0 where
  kept : Purchases db r.0
  open_rows : (i : ℕ) → IsOpen db.orders i → IsOpen r.0.orders i

module _ (db : Database) (order_id : ℕ) where
  abbrev released : Database
  released = record db {
    event_sectors = give_back (released_rows db order_id db.event_sectors) db.event_sectors;
  }

  cancelled-Leaves :
      (stats : Stats)
      → IsOpen db.orders order_id
      → exists (is_issued_for db order_id) db.tickets ≡ false
      → Leaves db (
        record (without_instances released order_id) { orders = set_cancelled order_id db.orders },
        stats,
      )
  cancelled-Leaves stats open_row unissued = record {
    kept = record {
      orders = λ o done h. set_cancelled_keeps db.orders order_id o open_row done h;
      tickets = λ k h. h;
      issued = λ i h. h;
      instances = λ t issued h.
          scalar-delete (λ r. r.id == t.id) (λ r. r.order_id == order_id) db.ticket_instances t
            (λ x at same.
              subst (λ y. (y.order_id == order_id) ≡ false) (sym same)
                (remaining db order_id t unissued issued h))
            h;
    };
    open_rows = λ i h. set_cancelled-IsOpen db.orders order_id i h;
  }

  cancel_order-Leaves :
      (stats : Stats)
      → IsOpen db.orders order_id
      → Ensures (Leaves db) (cancel_order db stats order_id)
  unfolding cancel_order
  cancel_order-Leaves stats open_row = rw release_rows-sectors (
      Ensures-bind (delete_instances released order_id) _ λ db2 deleted.
        let done = Ensures_ok _ (delete_instances-unissued released order_id) deleted in
        rw done.1 (returned (cancelled-Leaves _ open_row done.0)))

cancel_orders-Purchases :
    (ids : List ℕ) (db : Database) (stats : Stats)
    → All (IsOpen db.orders) ids
    → Ensures (λ (r : Database × Stats). Purchases db r.0) (cancel_orders db stats ids)
unfolding cancel_orders
cancel_orders-Purchases [] db stats h = returned (Purchases-refl db)
cancel_orders-Purchases (id ∷ ids) db stats h = Ensures-bind (cancel_order db stats id) _ λ done e.
    let one = Ensures_ok _ (cancel_order-Leaves db id stats h.0) e in
    Ensures-map _ (λ r rest. Purchases-trans db done.0 r.0 one.kept rest)
      (cancel_orders-Purchases ids done.0 done.1 (All-map _ _ ids one.open_rows h.1))

pub cleanup_expired_reservations-Purchases :
    (db : Database) (now limit : ℕ)
    → IsConsistent db
    → Ensures
        (λ (r : Stats × Database). Purchases db r.1)
        (cleanup_expired_reservations db now limit)
unfolding cleanup_expired_reservations
cleanup_expired_reservations-Purchases db now limit c =
    Ensures-bind (cancel_orders db no_stats _) _ λ done e. returned (
      Ensures_ok _
        (cancel_orders-Purchases _ db no_stats
          (ids-IsOpen db now limit (limit - length (pending_ids db now limit)) c.keyed.orders))
        e)
