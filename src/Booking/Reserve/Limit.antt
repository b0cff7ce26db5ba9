-- ===== src/Booking/Reserve/Limit.antt =====
-- The limit of tickets that a user may have for an event.
use ticketing_system.Prelude.{
  ℕ, ◌+◌, ◌≤◌, ◌≡◌, refl, Bool, true, false, ◌&&◌, List, [], ◌∷◌, ◌++◌, none, some, Option, arith,
  ltb, ◌==◌, if◌then◌else◌, subst, sym, ◌∙◌, ==_iff, and_left,
}
use ticketing_system.Errors.{
  Result, ok, Error, invalid_input, raise_if, Ensures, Ensures-map, Ensures-bind, Ensures-raise_if,
  Ensures_ok, returned, or_raise, or_raise_ok,
}
use ticketing_system.Table.{scalar, exists, count, update}
use ticketing_system.Table.Laws.{count-append, count_mono, scalar_holds}
use ticketing_system.Table.Replace.{exists-replace}
use ticketing_system.Schema.{
  Database, Event, Order, TicketInstance, OrderStatus, EventStatus, is_event_status, is_counted,
}
use ticketing_system.Booking.Orders.{
  require_event_on_sale_status, current_count, ensure_user_ticket_limit_not_exceeded, save_order,
  bump_total, extend_reservation,
}
use ticketing_system.Booking.Orders.Save.{row_of_users}
use ticketing_system.Booking.Reserve.{Booking, reserve}
use ticketing_system.Booking.Reserve.Consistent.{insert_order-IsConsistent}
use ticketing_system.Booking.Reserve.Outcome.{place, with_order, Reserved, reserve-Reserved}
use ticketing_system.Invariants.{IsConsistent}

raise_if_ok : (c : Bool) (e : Error) → raise_if c e ≡ ok tt → c ≡ false
raise_if_ok true e h = cc
raise_if_ok false e h = refl

-- The check leaves room for one more.
limit_room :
    (db : Database) (user_id : ℕ) (event : Event) (limit : ℕ)
    → event.max_tickets_per_user ≡ some limit
    → ensure_user_ticket_limit_not_exceeded db user_id event ≡ ok tt
    → current_count db user_id event.id + 1 ≤ limit
unfolding ensure_user_ticket_limit_not_exceeded
limit_room db user_id event limit m h =
    let too_many = invalid_input "Ticket limit for this event exceeded" in
    let test =
      subst
        (λ (o : Option ℕ).
          (elim o as (λ _. Result (Unit {0})) [
            | none ↦ ok tt
            | some l ↦ raise_if (ltb l (current_count db user_id event.id + 1)) too_many
          ])
          ≡ ok tt)
        m h in
    ground (arith, raise_if_ok _ _ test)

on_sale-id :
    (db : Database) (event_id now : ℕ)
    → Ensures (λ e. e.id ≡ event_id) (require_event_on_sale_status db event_id now)
unfolding require_event_on_sale_status
on_sale-id db event_id now =
    Ensures-bind
      (or_raise
        (scalar (λ e. e.id == event_id && is_event_status e.status EventStatus.on_sale) db.events)
        _)
      _
      λ e found. Ensures-raise_if (ltb now e.sales_start) _ _ λ _.
        Ensures-raise_if (ltb e.sales_end now) _ _ λ _. returned (
          (==_iff e.id event_id).0
            (and_left _ _ (scalar_holds _ db.events e (or_raise_ok _ _ _ found))))

at_most_one : (c : Bool) → (if c then 1 else 0) ≤ 1
at_most_one c = ground arith

-- One instance more is at most one more that counts.
current_count-place :
    (is_ga : Bool) (db : Database) (k : ℕ) (t : TicketInstance) (o o' : Order)
    (user_id event_id : ℕ)
    → scalar (λ r. r.id == o'.id) db.orders ≡ some o
    → o'.id ≡ o.id
    → o'.user_id ≡ o.user_id
    → o'.status ≡ o.status
    → current_count (save_order (place is_ga db k t) o') user_id event_id
      ≤ current_count db user_id event_id + 1
unfolding current_count save_order count
current_count-place is_ga db k t o o' user_id event_id row same_id same_user same_status =
    let after = update (λ r. r.id == o'.id) (λ _. o') db.orders in
    let counts = λ (os : List Order) (t : TicketInstance).
      t.event_id == event_id
      && exists (λ o. o.id == t.order_id && (o.user_id == user_id && is_counted o.status)) os in
    let fewer = count_mono (counts after) (counts db.orders) db.ticket_instances (λ t h. ground (
      arith,
      h,
      exists-replace (λ o. o.id)
          (λ o. o.id == t.order_id && (o.user_id == user_id && is_counted o.status)) o'.id o o'
          db.orders row (λ e. rw (sym same_id, sym same_user, sym same_status) e),
    )) in
    let bound : count (counts after) (db.ticket_instances ++ t ∷ [])
        ≤ count (counts db.orders) db.ticket_instances + 1 =
      omega (
        arith,
        count-append (counts after) db.ticket_instances (t ∷ []),
        at_most_one (counts after t),
        fewer,
      ) in
    bound

same_event : (a b : Event) → ok a ≡ ok b → a ≡ b
same_event a b h = cc

-- After a reservation that succeeds, on consistent tables and for an event with a limit, the user has
-- at most that many tickets of the event in orders that are not cancelled.
pub reserve_ticket_within_limit :
    (db : Database) (b : Booking) (event : Event) (limit : ℕ)
    → IsConsistent db
    → require_event_on_sale_status db b.event_id b.checked ≡ ok event
    → event.max_tickets_per_user ≡ some limit
    → Ensures
        (λ (r : (Order × TicketInstance) × Database).
          current_count r.1 b.user_id b.event_id ≤ limit)
        (reserve db b)
unfolding bump_total extend_reservation
reserve_ticket_within_limit db b event limit c found m =
    Ensures-map _ (λ r v. kept r v) (reserve-Reserved db b)
  where
    kept :
        (r : (Order × TicketInstance) × Database)
        → Reserved db b r
        → current_count r.1 b.user_id b.event_id ≤ limit
    kept r v =
        let keyed = (insert_order-IsConsistent db b.user_id b.started c).keyed in
        let row =
          row_of_users (with_order db b) b.user_id OrderStatus.pending v.order keyed
            v.order_found in
        let same = same_event v.event event (sym v.event_found ∙ found) in
        let event_id = Ensures_ok _ (on_sale-id db b.event_id b.checked) found in
        let room = limit_room (with_order db b) b.user_id event limit m (
          subst (λ e. ensure_user_ticket_limit_not_exceeded (with_order db b) b.user_id e ≡ ok tt)
            same v.below_limit) in
        let room' =
          subst (λ i. current_count (with_order db b) b.user_id i + 1 ≤ limit) event_id room in
        let same_id : r.0.0.id ≡ v.order.id = rw v.order_changed refl in
        let placed =
          current_count-place v.sector.is_ga (with_order db b) v.ett.event_sector_id r.0.1 v.order
            r.0.0 b.user_id b.event_id
            (subst (λ i. scalar (λ r. r.id == i) (with_order db b).orders ≡ some v.order)
              (sym same_id) row)
            same_id (rw v.order_changed refl) (rw v.order_changed refl) in
        rw v.written (omega (arith, placed, room'))
