-- ===== src/Booking/Cart/Holder/Tests.antt =====
-- The item of the sample cart, with a holder.
use ticketing_system.Prelude.{◌≡◌, refl, true, false, [], ◌∷◌}
use ticketing_system.Errors.{is_ok}
use ticketing_system.Table.{scalar, exists}
use ticketing_system.Schema.{Database, OrderStatus}
use ticketing_system.Booking.Cart.{remove_ticket_instance}
use ticketing_system.Booking.Cart.Holder.{remove_ticket_instance_held}
use ticketing_system.Samples.{with_order_of, item}

abbrev held : Database
held = record (with_order_of OrderStatus.pending) {
  ticket_holders =
      record {
        id = 1;
        ticket_instance_id = 1;
        first_name = "Jan";
        last_name = "Nowak";
        birth_date = 100;
        identification_number = "ABC123";
      }
      ∷ [];
}

remove_ticket_instance_held_example : is_ok (remove_ticket_instance true held 7 1) ≡ false
unfolding scalar exists
remove_ticket_instance_held_example = remove_ticket_instance_held held 7 1 item refl refl
