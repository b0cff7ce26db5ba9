-- ===== src/Booking/Cart/Holder.antt =====
-- Removing an item that has a holder.
mod Tests
use ticketing_system.Prelude.{
  ℕ, ◌≡◌, refl, Bool, true, false, not, ◌&&◌, some, arith, ◌==◌, subst, sym, ◌∙◌,
}
use ticketing_system.Errors.{
  Result, ok, err, is_ok, Ensures, Ensures-bind, Ensures-raise_if, Ensures_ok, returned, raised,
  or_raise, or_raise_ok,
}
use ticketing_system.Table.{scalar, exists}
use ticketing_system.Schema.{Database, TicketInstance, OrderStatus}
use ticketing_system.Booking.Orders.{is_users, require_order, ga_increment, save_order}
use ticketing_system.Booking.Reserve.{sector_of}
use ticketing_system.Booking.Cart.{
  ticket_type_of, delete_ticket_instance, return_to_sector, remove_ticket_instance,
}
use ticketing_system.Booking.Cart.Removal.{cheaper}

abbrev pub has_holder : Database → ℕ → Bool
has_holder db id = exists (λ h. h.ticket_instance_id == id) db.ticket_holders

delete_ticket_instance_held :
    (db : Database) (t : TicketInstance)
    → Ensures (λ _. has_holder db t.id ≡ false) (delete_ticket_instance true db t)
unfolding delete_ticket_instance
delete_ticket_instance_held db t = Ensures-raise_if (has_holder db t.id) _ _ λ free.
    Ensures-raise_if (exists (λ k. k.ticket_instance_id == t.id) db.tickets) _ _ λ _. returned free

return_to_sector_holders :
    (is_ga : Bool) (db : Database) (j i : ℕ)
    → has_holder (return_to_sector is_ga db j) i ≡ has_holder db i
unfolding ga_increment
return_to_sector_holders true db j i = refl
return_to_sector_holders false db j i = refl

removed_held :
    (db : Database) (user_id id : ℕ) (t : TicketInstance)
    → scalar (λ t. t.id == id) db.ticket_instances ≡ some t
    → Ensures (λ _. has_holder db t.id ≡ false) (remove_ticket_instance true db user_id id)
unfolding remove_ticket_instance require_order save_order
removed_held db user_id id t found = rw found (
    Ensures-bind (or_raise (scalar (is_users user_id OrderStatus.pending) db.orders) _) _ λ o _.
      Ensures-raise_if (not (o.id == t.order_id)) _ _ λ _.
        Ensures-bind (ticket_type_of db t) _ λ ett _. Ensures-bind (sector_of db ett) _ λ sectors _.
          let back = return_to_sector sectors.1.is_ga db ett.event_sector_id in
          Ensures-bind (delete_ticket_instance true (save_order back (cheaper o t)) t) _
            λ db3 deleted. returned (
              sym (return_to_sector_holders sectors.1.is_ga db ett.event_sector_id t.id)
              ∙ Ensures_ok _ (delete_ticket_instance_held (save_order back (cheaper o t)) t)
                  deleted))

not_ok :
    (r : Result (Unit {0} × Database)) (b : Bool)
    → b ≡ true
    → Ensures (λ (p : Unit {0} × Database). b ≡ false) r
    → is_ok r ≡ false
not_ok (ok p) b h (returned e) = cc
not_ok (err e) b h raised = refl

-- Where the session first sets the foreign key of a holder to NULL, an item that has a holder cannot
-- be removed, by any user.
pub remove_ticket_instance_held :
    (db : Database) (user_id ticket_instance_id : ℕ) (t : TicketInstance)
    → scalar (λ t. t.id == ticket_instance_id) db.ticket_instances ≡ some t
    → has_holder db t.id ≡ true
    → is_ok (remove_ticket_instance true db user_id ticket_instance_id) ≡ false
remove_ticket_instance_held db user_id id t found held =
    not_ok _ (has_holder db t.id) held (removed_held db user_id id t found)
