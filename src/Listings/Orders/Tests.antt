-- ===== src/Listings/Orders/Tests.antt =====
-- User 7 has an order of one ticket.
use ticketing_system.Prelude.{◌≡◌, ◌≢◌, refl, true, [], ◌∷◌, none}
use ticketing_system.Errors.{ok, err, not_found}
use ticketing_system.Table.{scalar, sum, select}
use ticketing_system.Listings.Joins.{joined}
use ticketing_system.Schema.{Database, Order, OrderStatus, is_counted}
use ticketing_system.Samples.{with_order_of, order_of, item, with_order_of-IsConsistent}
use ticketing_system.Listings.Orders.{
  OrderDetails, AdminOrderDetails, get_user_order, get_order_admin, to_order_details,
  completed_payment,
}
use ticketing_system.Listings.Orders.Details.{get_user_order_lem, get_order_admin-get_user_order}

abbrev cart : Database
cart = with_order_of OrderStatus.completed

abbrev order : Order
order = order_of OrderStatus.completed

get_user_order_lem_example :
    (order.user_id ≡ 7
      → (d : OrderDetails) × (get_user_order (λ k. k) cart 7 1 ≡ ok d)
        × (d.id ≡ 1)
        × (is_counted d.status ≡ true
            → d.total_price ≡ sum (λ _. true) (λ t. t.price_gross_snapshot) d.items))
    × (order.user_id ≢ 7 → get_user_order (λ k. k) cart 7 1 ≡ err (not_found "Order not found"))
unfolding scalar
get_user_order_lem_example =
    get_user_order_lem (λ k. k) cart (with_order_of-IsConsistent OrderStatus.completed) 1 7 order
      refl

not_his : get_user_order (λ k. k) cart 8 1 ≡ err (not_found "Order not found")
unfolding get_user_order scalar
not_his = refl

abbrev with_account : Database
with_account = record cart {
  accounts =
      record {
        user = record { id = 7; is_active = true; roles = []; organizers = [] };
        email = 97 ∷ 64 ∷ 98 ∷ [];
        phone_number = none;
        first_name = 65 ∷ [];
        last_name = 66 ∷ [];
        password_hash = [];
        birth_date = none;
      }
      ∷ [];
}

abbrev shown : AdminOrderDetails
shown = record {
  details = record {
    id = 1;
    status = OrderStatus.completed;
    total_price = 12300;
    reserved_until = 900000202;
    created_at = 1;
    items = item ∷ [];
    payment = none;
  };
  user_id = 7;
  user_email = 97 ∷ 64 ∷ 98 ∷ [];
}

get_order_admin-get_user_order_example : get_user_order (λ k. k) with_account 7 1 ≡ ok shown.details
unfolding get_order_admin joined scalar to_order_details completed_payment select
get_order_admin-get_user_order_example =
    get_order_admin-get_user_order (λ k. k) with_account
      (with_order_of-IsConsistent OrderStatus.completed) 1 shown refl
