-- ===== src/Booking/Cart/Removal.antt =====
-- What `remove_ticket_instance` has found and written where it returns.
use ticketing_system.Prelude.{ℕ, ◌≡◌, refl, Bool, true, false, not, ◌&&◌, some, ◌==◌}
use ticketing_system.Prelude.Int.{pos, neg}
use ticketing_system.Errors.{
  ok, or_raise, or_raise_ok, Ensures, returned, Ensures-bind, Ensures-raise_if, Ensures_ok,
}
use ticketing_system.Table.{scalar, exists, delete}
use ticketing_system.Schema.{
  Database, Order, Sector, EventSector, EventTicketType, TicketInstance, OrderStatus,
}
use ticketing_system.Booking.Orders.{is_users, require_order, ga_increment, bump_total, save_order}
use ticketing_system.Booking.Reserve.{sector_of}
use ticketing_system.Booking.Cart.{
  ticket_type_of, delete_ticket_instance, return_to_sector, remove_ticket_instance,
}

abbrev pub without_instance : Database → TicketInstance → Database
without_instance db t = record db {
  ticket_instances = delete (λ s. s.id == t.id) db.ticket_instances;
  ticket_holders = delete (λ h. h.ticket_instance_id == t.id) db.ticket_holders;
}

abbrev pub cheaper : Order → TicketInstance → Order
cheaper order t = bump_total order (neg (pos t.price_gross_snapshot))

pub record Removed (db : Database) (user_id ticket_instance_id : ℕ) (r : Unit {0} × Database)
    : Type 0 where
  pub t : TicketInstance
  pub order : Order
  pub ett : EventTicketType
  pub event_sector : EventSector
  pub sector : Sector
  pub t_found : scalar (λ t. t.id == ticket_instance_id) db.ticket_instances ≡ some t
  pub order_found : scalar (is_users user_id OrderStatus.pending) db.orders ≡ some order
  pub in_order : not (order.id == t.order_id) ≡ false
  pub ett_found : ticket_type_of db t ≡ ok ett
  pub sector_found : sector_of db ett ≡ ok (event_sector, sector)
  pub unissued : exists (λ k. k.ticket_instance_id == t.id) db.tickets ≡ false
  pub written :
      r.1
      ≡ without_instance
          (save_order (return_to_sector sector.is_ga db ett.event_sector_id) (cheaper order t))
          t

delete_ticket_instance-written :
    (nullifies : Bool) (db : Database) (t : TicketInstance)
    → Ensures
        (λ db'.
          (exists (λ k. k.ticket_instance_id == t.id) db.tickets ≡ false)
          × (db' ≡ without_instance db t))
        (delete_ticket_instance nullifies db t)
unfolding delete_ticket_instance
delete_ticket_instance-written nullifies db t =
    Ensures-raise_if (nullifies && exists (λ h. h.ticket_instance_id == t.id) db.ticket_holders) _ _
      λ _.
        Ensures-raise_if (exists (λ k. k.ticket_instance_id == t.id) db.tickets) _ _
          λ unissued. returned (unissued, refl)

return_to_sector_tickets :
    (is_ga : Bool) (db : Database) (j i : ℕ)
    → exists (λ k. k.ticket_instance_id == i) (return_to_sector is_ga db j).tickets ≡ false
    → exists (λ k. k.ticket_instance_id == i) db.tickets ≡ false
unfolding ga_increment
return_to_sector_tickets true db j i h = h
return_to_sector_tickets false db j i h = h

pub remove_ticket_instance-Removed :
    (nullifies : Bool) (db : Database) (user_id ticket_instance_id : ℕ)
    → Ensures
        (Removed db user_id ticket_instance_id)
        (remove_ticket_instance nullifies db user_id ticket_instance_id)
unfolding remove_ticket_instance require_order save_order
remove_ticket_instance-Removed nullifies db user_id id =
    Ensures-bind (or_raise (scalar (λ t. t.id == id) db.ticket_instances) _) _ λ t t_found.
      Ensures-bind (or_raise (scalar (is_users user_id OrderStatus.pending) db.orders) _) _
        λ order order_found. Ensures-raise_if (not (order.id == t.order_id)) _ _ λ in_order.
          Ensures-bind (ticket_type_of db t) _ λ ett ett_found.
            Ensures-bind (sector_of db ett) _ λ sectors sector_found.
              let db2 =
                save_order (return_to_sector sectors.1.is_ga db ett.event_sector_id)
                  (cheaper order t) in
              Ensures-bind (delete_ticket_instance nullifies db2 t) _ λ db3 deleted.
                let done = Ensures_ok _ (delete_ticket_instance-written nullifies db2 t) deleted in
                returned (record {
                  t = t;
                  order = order;
                  ett = ett;
                  event_sector = sectors.0;
                  sector = sectors.1;
                  t_found = or_raise_ok _ _ _ t_found;
                  order_found = or_raise_ok _ _ _ order_found;
                  in_order = in_order;
                  ett_found = ett_found;
                  sector_found = sector_found;
                  unissued =
                      return_to_sector_tickets sectors.1.is_ga db ett.event_sector_id t.id done.0;
                  written = done.1;
                })
