-- ===== src/Booking/Cleanup/Consistent.antt =====
-- The clean-up of expired reservations keeps the booking tables consistent and the stock.
use ticketing_system.Prelude.{
  ℕ, ◌+◌, ◌≤◌, ◌≡◌, refl, false, ◌&&◌, List, [], ◌∷◌, ◌++◌, arith, ◌==◌, sym, ◌∙◌, ◌-◌, length, inl,
  inr, Bool-cases, length-append, length-take-le, length-map,
}
use ticketing_system.Errors.{
  Ensures, Ensures-map, Ensures_ok, Ensures-bind, Ensures-raise_if, returned,
}
use ticketing_system.Table.{exists, update, delete}
use ticketing_system.Table.Laws.{
  count-update-le, sum-delete, sum_none, length-delete, All-delete, All-update,
}
use ticketing_system.Table.Keys.{Unique-update, Unique-delete}
use ticketing_system.Schema.{Database, EventSector, TicketInstance, OrderStatus}
use ticketing_system.Booking.Orders.{ga_increment}
use ticketing_system.Booking.Checkout.{with_status}
use ticketing_system.Booking.Cleanup.{
  Stats, no_stats, released_rows, release_rows, delete_instances, cancel_order, cancel_orders,
  pending_ids, awaiting_ids, cleanup_expired_reservations,
}
use ticketing_system.Booking.Cleanup.Stock.{
  give_back, release_rows-sectors, give_back-Unique, is_general-give_back, released-stock,
}
use ticketing_system.Booking.Reserve.{has_active_order}
use ticketing_system.Invariants.{
  IsConsistent, IsPriced, cart_total, Preserves, Preserves-refl, Preserves-trans,
}
use ticketing_system.Invariants.Rows.{HasOneHolder-delete}

-- The other orders keep their instances.
cart_total-others :
    (ts : List TicketInstance) (order_id k : ℕ)
    → (k == order_id) ≡ false
    → cart_total (delete (λ t. t.order_id == order_id) ts) k ≡ cart_total ts k
cart_total-others ts order_id k other = omega (
  arith,
  sum-delete (λ t. t.order_id == k) (λ t. t.order_id == order_id) (λ t. t.price_gross_snapshot) ts,
  sum_none (λ t. t.order_id == k && t.order_id == order_id) (λ t. t.price_gross_snapshot) ts
      (λ t. ground arith),
)

-- The loop over the sectors counts general admission tickets alone.
release_rows-counts :
    (db : Database) (stats : Stats) (given : List (ℕ × ℕ))
    → ((release_rows db stats given).1.orders_cancelled ≡ stats.orders_cancelled)
      × ((release_rows db stats given).1.tickets_released ≡ stats.tickets_released)
unfolding release_rows
release_rows-counts db stats [] = (refl, refl)
release_rows-counts db stats ((j, n) ∷ given) =
    release_rows-counts (ga_increment db j n) (record stats { ga_released = stats.ga_released + n })
      given

abbrev pub without_instances : Database → ℕ → Database
without_instances db order_id = record db {
  ticket_instances = delete (λ t. t.order_id == order_id) db.ticket_instances;
  ticket_holders =
      delete
        (λ h.
          exists (λ t. t.id == h.ticket_instance_id && t.order_id == order_id) db.ticket_instances)
        db.ticket_holders;
}

delete_instances-written :
    (db : Database) (order_id : ℕ)
    → Ensures (λ db'. db' ≡ without_instances db order_id) (delete_instances db order_id)
unfolding delete_instances
delete_instances-written db order_id =
    Ensures-raise_if
      (exists
        (λ k.
          exists (λ t. t.id == k.ticket_instance_id && t.order_id == order_id) db.ticket_instances)
        db.tickets)
      _ _ λ _. returned refl

module _ (db : Database) (order_id : ℕ) where
  returned_sectors : List EventSector
  returned_sectors = give_back (released_rows db order_id db.event_sectors) db.event_sectors

  abbrev released : Database
  released = record db { event_sectors = returned_sectors }

  abbrev cancelled : Database
  cancelled = record (without_instances released order_id) {
    orders = update (λ o. o.id == order_id) (with_status OrderStatus.cancelled) db.orders;
  }

  -- One order is cancelled and its instances are counted.
  record Cancels (stats : Stats) (r : Database × Stats) : Type 0 where
    result : r.0 ≡ cancelled
    one_more : r.1.orders_cancelled ≡ stats.orders_cancelled + 1
    all_counted :
        length r.0.ticket_instances + r.1.tickets_released
        ≡ length db.ticket_instances + stats.tickets_released

  cancel_order-Cancels : (stats : Stats) → Ensures (Cancels stats) (cancel_order db stats order_id)
  unfolding cancel_order returned_sectors
  cancel_order-Cancels stats =
      let given = released_rows db order_id db.event_sectors in
      let counts = release_rows-counts db stats given in
      rw release_rows-sectors (
        Ensures-bind (delete_instances released order_id) _ λ db2 deleted.
          rw (Ensures_ok _ (delete_instances-written released order_id) deleted) (
            returned (record {
              result = refl;
              one_more = rw counts.0;
              all_counted =
                  rw counts.1 (
                    omega (arith, length-delete (λ t. t.order_id == order_id) db.ticket_instances));
            })))

  cancelled-Preserves : IsConsistent db → Preserves db cancelled
  unfolding returned_sectors
  cancelled-Preserves c = record {
    consistent = record {
      keyed = record {
        sectors = c.keyed.sectors;
        event_sectors =
            give_back-Unique (released_rows db order_id db.event_sectors) db.event_sectors
              c.keyed.event_sectors;
        event_ticket_types = c.keyed.event_ticket_types;
        orders =
            Unique-update (λ o. o.id) _ (with_status OrderStatus.cancelled) db.orders
              (λ r. ground arith) c.keyed.orders;
        ticket_instances = Unique-delete (λ t. t.id) _ db.ticket_instances c.keyed.ticket_instances;
        orders_below =
            All-update _ _ (λ o. o.id == order_id) (with_status OrderStatus.cancelled) db.orders
              (λ r h. ground arith) c.keyed.orders_below;
        instances_below = All-delete _ _ db.ticket_instances c.keyed.instances_below;
        instances_ordered = All-delete _ _ db.ticket_instances c.keyed.instances_ordered;
      };
      active = λ u. omega (
        arith,
        c.active u,
        count-update-le (has_active_order u) (λ o. o.id == order_id)
            (with_status OrderStatus.cancelled) db.orders (λ r h. ground arith),
      );
      seated = HasOneHolder-delete db.ticket_instances _ c.seated;
      priced =
          All-update (IsPriced db.ticket_instances) _ (λ o. o.id == order_id)
            (with_status OrderStatus.cancelled) db.orders
            (λ r priced. elim (Bool-cases (r.id == order_id)) [
              | inl hit ↦ rw hit (λ counted. cc)
              | inr miss ↦ rw miss λ counted.
                  priced counted ∙ sym (cart_total-others db.ticket_instances order_id r.id miss)
            ])
            c.priced;
    };
    same_stock = λ k g. (
      is_general-give_back db.sectors (released_rows db order_id db.event_sectors) db.event_sectors
            k
          ∙ g,
      released-stock db order_id k c.keyed.event_sectors g,
    );
  }

-- What the loop over the orders leaves true, and what it counts.
record Cleans (db : Database) (stats : Stats) (n : ℕ) (r : Database × Stats) : Type 0 where
  preserved : Preserves db r.0
  counted : r.1.orders_cancelled ≡ stats.orders_cancelled + n
  all_counted :
      length r.0.ticket_instances + r.1.tickets_released
      ≡ length db.ticket_instances + stats.tickets_released

cancel_orders-Cleans :
    (ids : List ℕ) (db : Database) (stats : Stats)
    → IsConsistent db
    → Ensures (Cleans db stats (length ids)) (cancel_orders db stats ids)
unfolding cancel_orders
cancel_orders-Cleans [] db stats c =
    returned (record { preserved = Preserves-refl db c; counted = omega arith; all_counted = refl })
cancel_orders-Cleans (id ∷ ids) db stats c = Ensures-bind (cancel_order db stats id) _ λ done e.
    let one = Ensures_ok _ (cancel_order-Cancels db id stats) e in
    let kept : Preserves db done.0 = rw one.result (cancelled-Preserves db id c) in
    Ensures-map _
      (λ r rest. record {
        preserved = Preserves-trans db done.0 r.0 kept rest.preserved;
        counted = omega (arith, one.one_more, rest.counted);
        all_counted = omega (arith, one.all_counted, rest.all_counted);
      })
      (cancel_orders-Cleans ids done.0 done.1 kept.consistent)

pending_ids-le : (db : Database) (now limit : ℕ) → length (pending_ids db now limit) ≤ limit
unfolding pending_ids
pending_ids-le db now limit = rw length-map (length-take-le limit _)

awaiting_ids-le : (db : Database) (now limit : ℕ) → length (awaiting_ids db now limit) ≤ limit
unfolding awaiting_ids
awaiting_ids-le db now limit = rw length-map (length-take-le limit _)

-- The ids that the two selects give are at most `limit` together.
ids-le :
    (db : Database) (now limit : ℕ)
    → let pending = pending_ids db now limit in
      length (pending ++ awaiting_ids db now (limit - length pending)) ≤ limit
ids-le db now limit =
    let pending = pending_ids db now limit in
    let rest = limit - length pending in
    omega (
      arith,
      length-append pending (awaiting_ids db now rest),
      pending_ids-le db now limit,
      awaiting_ids-le db now rest,
    )

pub cleanup_expired_reservations-Preserves :
    (db : Database) (now limit : ℕ)
    → IsConsistent db
    → Ensures
        (λ (r : Stats × Database). Preserves db r.1)
        (cleanup_expired_reservations db now limit)
unfolding cleanup_expired_reservations
cleanup_expired_reservations-Preserves db now limit c =
    Ensures-bind (cancel_orders db no_stats _) _
      λ done e. returned (Ensures_ok _ (cancel_orders-Cleans _ db no_stats c) e).preserved

-- A clean-up of consistent tables that returns cancels at most `limit` orders, and the tickets that it
-- reports as released are those that are gone from the table.
pub cleanup_expired_reservations_stats :
    (db : Database) (now limit : ℕ)
    → IsConsistent db
    → Ensures
        (λ (r : Stats × Database).
          (r.0.orders_cancelled ≤ limit)
          × (length r.1.ticket_instances + r.0.tickets_released ≡ length db.ticket_instances))
        (cleanup_expired_reservations db now limit)
unfolding cleanup_expired_reservations
cleanup_expired_reservations_stats db now limit c =
    Ensures-bind (cancel_orders db no_stats _) _ λ done e.
      let cleans = Ensures_ok _ (cancel_orders-Cleans _ db no_stats c) e in
      returned
        (omega (arith, cleans.counted, ids-le db now limit), omega (arith, cleans.all_counted))
