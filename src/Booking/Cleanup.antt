-- ===== src/Booking/Cleanup.antt =====
-- `cleanup_expired_reservations` of app/services/booking_service.py.
pub mod Stock
pub mod Selected
pub mod Purchases
pub mod Consistent
mod Tests
use ticketing_system.Prelude.{
  ℕ, ◌+◌, ◌-◌, Bool, not, ◌&&◌, List, [], ◌∷◌, ◌++◌, map, ltb, ◌==◌, length, take, if◌then◌else◌,
}
use ticketing_system.Errors.{Result, ok, ◌>>=◌, ◌>>◌, raise_if, integrity_error}
use ticketing_system.Table.{exists, select, count, update, delete}
use ticketing_system.Schema.{Database, Order, EventSector, TicketInstance, OrderStatus, is_status}
use ticketing_system.Booking.Orders.{ga_increment}
use ticketing_system.Booking.Checkout.{is_open_payment, with_status}

pub record Stats : Type 0 where
  pub orders_cancelled : ℕ
  pub tickets_released : ℕ
  pub ga_released : ℕ

abbrev pub is_expired : ℕ → OrderStatus → Order → Bool
is_expired now status o = is_status o.status status && ltb o.reserved_until now

-- The ids of at most `limit` expired orders in the cart.
pub pending_ids : Database → ℕ → ℕ → List ℕ
pending_ids db now limit =
    map (λ o. o.id) (take limit (select (is_expired now OrderStatus.pending) db.orders))

-- The ids of at most `limit` expired orders that await a payment and have none in progress.
pub awaiting_ids : Database → ℕ → ℕ → List ℕ
awaiting_ids db now limit =
    map (λ o. o.id)
      (take limit (
        select
          (λ o.
            is_expired now OrderStatus.awaiting_payment o
            && not (exists (is_open_payment o.id) db.payments))
          db.orders))

-- The instance belongs to the order and its ticket type to the event sector.
abbrev pub is_in : Database → ℕ → ℕ → TicketInstance → Bool
is_in db order_id event_sector_id t =
    t.order_id == order_id
    && exists (λ e. e.id == t.event_ticket_type_id && e.event_sector_id == event_sector_id)
        db.event_ticket_types

-- The event sector lies in a general admission sector.
abbrev pub is_ga_sector : Database → EventSector → Bool
is_ga_sector db s = exists (λ v. v.id == s.sector_id && v.is_ga) db.sectors

-- select(EventSector.id, count(TicketInstance.id)) … group_by(EventSector.id): the sectors with an
-- instance of the order, each with the number of these.
pub released_rows : Database → ℕ → List EventSector → List (ℕ × ℕ)
released_rows db order_id [] = []
released_rows db order_id (s ∷ ss) =
    let cnt = count (is_in db order_id s.id) db.ticket_instances in
    let rest = released_rows db order_id ss in
    if is_ga_sector db s && ltb 0 cnt then (s.id, cnt) ∷ rest else rest

-- for event_sector_id, cnt in rows: the counts go back to their sectors.
pub release_rows : Database → Stats → List (ℕ × ℕ) → Database × Stats
release_rows db stats [] = (db, stats)
release_rows db stats ((event_sector_id, cnt) ∷ rows) =
    release_rows (ga_increment db event_sector_id cnt)
      (record stats { ga_released = stats.ga_released + cnt }) rows

-- delete(TicketInstance): the holders go with the instances, an issued ticket forbids it.
pub delete_instances : Database → ℕ → Result Database
delete_instances db order_id = do
  raise_if
      (exists
        (λ k.
          exists (λ t. t.id == k.ticket_instance_id && t.order_id == order_id) db.ticket_instances)
        db.tickets)
      integrity_error
  ok (record db {
    ticket_instances = delete (λ t. t.order_id == order_id) db.ticket_instances;
    ticket_holders =
        delete
          (λ h.
            exists (λ t. t.id == h.ticket_instance_id && t.order_id == order_id)
              db.ticket_instances)
          db.ticket_holders;
  })

pub cancel_order : Database → Stats → ℕ → Result (Database × Stats)
cancel_order db stats order_id = do
  let (db1, stats1) = release_rows db stats (released_rows db order_id db.event_sectors)
  let deleted = count (λ t. t.order_id == order_id) db1.ticket_instances
  db2 ← delete_instances db1 order_id
  ok (
    record db2 {
      orders = update (λ o. o.id == order_id) (with_status OrderStatus.cancelled) db2.orders;
    },
    record stats1 {
      tickets_released = stats1.tickets_released + deleted;
      orders_cancelled = stats1.orders_cancelled + 1;
    },
  )

pub cancel_orders : Database → Stats → List ℕ → Result (Database × Stats)
cancel_orders db stats [] = ok (db, stats)
cancel_orders db stats (order_id ∷ ids) = do
  done ← cancel_order db stats order_id
  cancel_orders done.0 done.1 ids

abbrev pub no_stats : Stats
no_stats = record { orders_cancelled = 0; tickets_released = 0; ga_released = 0 }

pub cleanup_expired_reservations : Database → ℕ → ℕ → Result (Stats × Database)
cleanup_expired_reservations db now limit = do
  let pending = pending_ids db now limit
  let awaiting = awaiting_ids db now (limit - length pending)
  done ← cancel_orders db no_stats (pending ++ awaiting)
  ok (done.1, done.0)
