-- ===== src/Listings/Orders.antt =====
-- The orders that are listed, and the details of one: app/services/orders_service.py. `created_at` is the
-- column of that name by the order's key, which the database fills.
pub mod Details
mod Tests
use mathlib.Core.Option
use ticketing_system.Prelude.{
  ℕ, Bool, true, false, ◌&&◌, List, [], ◌∷◌, ◌++◌, Option, none, some, String, ◌==◌, leb,
}
use ticketing_system.Prelude.Text.{Text}
use ticketing_system.Errors.{Result, ok, or_raise, not_found, on_ok}
use ticketing_system.Table.{scalar, select, count}
use ticketing_system.Schema.{
  Database, Order, OrderStatus, TicketInstance, Payment, PaymentStatus, PaymentMethod, Account,
  is_status,
}
use ticketing_system.Pagination.{Page, paginate, page_of}
use ticketing_system.Listings.Joins.{joined, ◌>>=◌, if_given, latest_first, same_email}

-- OrderListItemDTO
pub record OrderListItem : Type 0 where
  pub id : ℕ
  pub status : OrderStatus
  pub total_price : ℕ
  pub reserved_until : ℕ
  pub created_at : ℕ
  pub items_count : ℕ

-- PaymentInOrderDTO, with the method that the payment's foreign key names
pub record PaymentInOrder : Type 0 where
  pub id : ℕ
  pub amount : ℕ
  pub payment_method : Option PaymentMethod
  pub paid_at : Option ℕ
  pub provider : String

-- OrderDetailsDTO
pub record OrderDetails : Type 0 where
  pub id : ℕ
  pub status : OrderStatus
  pub total_price : ℕ
  pub reserved_until : ℕ
  pub created_at : ℕ
  pub items : List TicketInstance
  pub payment : Option PaymentInOrder

-- AdminOrderListItemDTO and AdminOrderDetailsDTO
pub record AdminOrderListItem : Type 0 where
  pub item : OrderListItem
  pub user_id : ℕ
  pub user_email : Text

pub record AdminOrderDetails : Type 0 where
  pub details : OrderDetails
  pub user_id : ℕ
  pub user_email : Text

-- AdminOrdersQueryDTO
pub record AdminOrdersQuery : Type 0 where
  pub status : Option OrderStatus
  pub user_id : Option ℕ
  pub email : Option Text
  pub created_from : Option ℕ
  pub created_to : Option ℕ
  pub page : ℕ
  pub page_size : ℕ

abbrev pub in_order : ℕ → TicketInstance → Bool
in_order order_id t = t.order_id == order_id

-- _ticket_instance_count_subquery
pub ticket_instance_count : Database → Order → ℕ
ticket_instance_count db o = count (in_order o.id) db.ticket_instances

pub to_payment_in_order : Database → Payment → PaymentInOrder
to_payment_in_order db p = record {
  id = p.id;
  amount = p.amount;
  payment_method = scalar (λ m. m.id == p.payment_method_id) db.payment_methods;
  paid_at = p.paid_at;
  provider = p.provider;
}

module _ where
  abbrev pub is_completed_status : PaymentStatus → Bool
  is_completed_status PaymentStatus.completed = true
  is_completed_status _ = false

  -- Payment.order_id == order_id, Payment.status == PaymentStatus.COMPLETED
  abbrev pub is_completed_of : ℕ → Payment → Bool
  is_completed_of order_id p = p.order_id == order_id && is_completed_status p.status

pub completed_payment : Database → ℕ → Option PaymentInOrder
completed_payment db order_id =
    Option.map (to_payment_in_order db) (scalar (is_completed_of order_id) db.payments)

-- select(Order, User.email).join(User)
abbrev pub user_of : Database → Order → Option (Order × Account)
user_of db o = do a ← scalar (λ (a : Account). a.user.id == o.user_id) db.accounts; some (o, a)

module _ (created_at : ℕ → ℕ) where
  pub to_order_list_item : Order → ℕ → OrderListItem
  to_order_list_item o items_count = record {
    id = o.id;
    status = o.status;
    total_price = o.total_price;
    reserved_until = o.reserved_until;
    created_at = created_at o.id;
    items_count = items_count;
  }

  pub to_order_details : Database → Order → Option PaymentInOrder → OrderDetails
  to_order_details db o payment = record {
    id = o.id;
    status = o.status;
    total_price = o.total_price;
    reserved_until = o.reserved_until;
    created_at = created_at o.id;
    items = select (in_order o.id) db.ticket_instances;
    payment = payment;
  }

  -- desc(Order.created_at), Order.id
  abbrev pub newest_order : Order → Order → Bool
  newest_order o p = latest_first (created_at o.id) o.id (created_at p.id) p.id

  -- UserOrdersQueryDTO is the status and the page.
  pub list_user_orders : Database → ℕ → Option OrderStatus → ℕ → ℕ → Page OrderListItem
  list_user_orders db user_id status page page_size =
      page_of (λ o. to_order_list_item o (ticket_instance_count db o))
        (paginate newest_order (λ o. o.id)
          ((λ o. o.user_id == user_id) ∷ if_given status (λ s o. is_status o.status s)) page
          page_size db.orders)
        page page_size

  pub get_user_order : Database → ℕ → ℕ → Result OrderDetails
  get_user_order db user_id order_id =
      on_ok (λ o. to_order_details db o (completed_payment db order_id))
        (or_raise (scalar (λ o. o.id == order_id && o.user_id == user_id) db.orders)
          (not_found "Order not found"))

  abbrev pub admin_filters : AdminOrdersQuery → List (Order × Account → Bool)
  admin_filters query =
      if_given query.status (λ s (o, a). is_status o.status s)
      ++ (if_given query.created_from (λ t (o, a). leb t (created_at o.id))
          ++ (if_given query.created_to (λ t (o, a). leb (created_at o.id) t)
              ++ (if_given query.user_id (λ u (o, a). o.user_id == u)
                  ++ if_given query.email (λ e (o, a). same_email e a.email))))

  abbrev pub admin_item : Database → Order × Account → AdminOrderListItem
  admin_item db (o, a) = record {
    item = to_order_list_item o (ticket_instance_count db o);
    user_id = a.user.id;
    user_email = a.email;
  }

  pub list_orders_admin : Database → AdminOrdersQuery → Page AdminOrderListItem
  list_orders_admin db query =
      page_of (admin_item db)
        (paginate (λ r s. newest_order r.0 s.0) (λ r. r.0.id) (admin_filters query) query.page
          query.page_size (joined (user_of db) db.orders))
        query.page query.page_size

  abbrev pub admin_details : Database → Order × Account → AdminOrderDetails
  admin_details db (o, a) = record {
    details = to_order_details db o (completed_payment db o.id);
    user_id = o.user_id;
    user_email = a.email;
  }

  pub get_order_admin : Database → ℕ → Result AdminOrderDetails
  get_order_admin db order_id = on_ok (admin_details db) (
      or_raise (scalar (λ r. r.0.id == order_id) (joined (user_of db) db.orders))
        (not_found "Order not found"))
