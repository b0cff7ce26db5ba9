-- ===== src/Booking/Reserve/Purchases.antt =====
-- A reservation leaves what is bought alone.
use ticketing_system.Prelude.{ℕ, ◌≡◌, refl, Bool, true, false, arith}
use ticketing_system.Errors.{Ensures, Ensures-map}
use ticketing_system.Table.Laws.{scalar-append, scalar_holds}
use ticketing_system.Schema.{Database, Order, OrderStatus, TicketInstance}
use ticketing_system.Booking.Orders.{is_users, extend_reservation, bump_total}
use ticketing_system.Booking.Orders.Save.{row_of_users}
use ticketing_system.Booking.Reserve.{Booking, reserve}
use ticketing_system.Booking.Reserve.Consistent.{insert_order_keeps, insert_order-IsConsistent}
use ticketing_system.Booking.Reserve.Outcome.{place, with_order, Reserved, reserve-Reserved}
use ticketing_system.Invariants.{IsConsistent}
use ticketing_system.Invariants.Purchases.{
  Purchases, Purchases-refl, Purchases-trans, save_order-Purchases, is_completed,
}

pub users_not_completed :
    (u : ℕ) (o : Order) → is_users u OrderStatus.pending o ≡ true → is_completed o ≡ false
users_not_completed u o h = ground arith

with_order-Purchases : (db : Database) (b : Booking) → Purchases db (with_order db b)
with_order-Purchases db b =
    insert_order_keeps (Purchases db) db b.user_id b.started (Purchases-refl db) (record {
      orders = λ o done h. scalar-append _ db.orders _ o h;
      tickets = λ k h. h;
      issued = λ i h. h;
      instances = λ t i h. h;
    })

place-Purchases :
    (is_ga : Bool) (db : Database) (k : ℕ) (t : TicketInstance) → Purchases db (place is_ga db k t)
place-Purchases is_ga db k t = record {
  orders = λ o done h. h;
  tickets = λ k h. h;
  issued = λ i h. h;
  instances = λ s i h. scalar-append _ db.ticket_instances _ s h;
}

pub reserve_ticket-Purchases :
    (db : Database) (b : Booking)
    → IsConsistent db
    → Ensures (λ (r : (Order × TicketInstance) × Database). Purchases db r.1) (reserve db b)
unfolding extend_reservation bump_total
reserve_ticket-Purchases db b c = Ensures-map _ (λ r v. kept r v) (reserve-Reserved db b)
  where
    kept : (r : (Order × TicketInstance) × Database) → Reserved db b r → Purchases db r.1
    kept r v =
        let placed = place v.sector.is_ga (with_order db b) v.ett.event_sector_id r.0.1 in
        let keyed = (insert_order-IsConsistent db b.user_id b.started c).keyed in
        let row =
          row_of_users (with_order db b) b.user_id OrderStatus.pending v.order keyed
            v.order_found in
        let owned = scalar_holds _ (with_order db b).orders v.order v.order_found in
        let saved =
          save_order-Purchases placed v.order r.0.0 row
            (users_not_completed b.user_id v.order owned) (rw v.order_changed refl) in
        rw v.written (
          Purchases-trans db (with_order db b) _ (with_order-Purchases db b) (
            Purchases-trans (with_order db b) placed _
              (place-Purchases v.sector.is_ga (with_order db b) v.ett.event_sector_id r.0.1) saved))
