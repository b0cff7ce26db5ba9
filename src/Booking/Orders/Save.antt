-- ===== src/Booking/Orders/Save.antt =====
-- Writing an order back keeps the booking tables consistent.
use ticketing_system.Prelude.{ℕ, ◌≡◌, refl, true, List, some, arith, ◌==◌, subst, sym, ◌∙◌, All}
use ticketing_system.Table.{scalar, update, Unique}
use ticketing_system.Table.Laws.{scalar-All, All-update}
use ticketing_system.Table.Keys.{scalar-key, Unique-update}
use ticketing_system.Schema.{Database, Order, TicketInstance, OrderStatus, is_counted, is_active}
use ticketing_system.Booking.Orders.{is_users, save_order}
use ticketing_system.Invariants.{IsKeyed, IsConsistent, IsPriced, HasOneCart, cart_total}
use ticketing_system.Invariants.Rows.{HasOneCart-replace, IsPriced-replace}

-- A new form of an order of the table: the same key and user, active or counted only if the old
-- form was, at the same price.
pub record Renews (o o' : Order) : Type 0 where
  pub same_id : o'.id ≡ o.id
  pub same_user : o'.user_id ≡ o.user_id
  pub active : is_active o'.status ≡ true → is_active o.status ≡ true
  pub counted : is_counted o'.status ≡ true → is_counted o.status ≡ true
  pub same_total : o'.total_price ≡ o.total_price

-- The user's order in a status is the row of its key.
pub row_of_users :
    (db : Database) (user_id : ℕ) (status : OrderStatus) (o : Order)
    → IsKeyed db
    → scalar (is_users user_id status) db.orders ≡ some o
    → scalar (λ r. r.id == o.id) db.orders ≡ some o
row_of_users db user_id status o keyed e = scalar-key (λ o. o.id) _ _ o keyed.orders e

pub HasOneCart-save :
    (os : List Order) (o o' : Order)
    → Unique (λ o. o.id) os
    → scalar (λ r. r.id == o.id) os ≡ some o
    → o'.id ≡ o.id
    → o'.user_id ≡ o.user_id
    → (is_active o'.status ≡ true → is_active o.status ≡ true)
    → HasOneCart os
    → HasOneCart (update (λ r. r.id == o'.id) (λ _. o') os)
HasOneCart-save os o o' u found same_id same_user active c =
    subst (λ j. HasOneCart (update (λ r. r.id == j) (λ _. o') os)) (sym same_id)
      (HasOneCart-replace os o o' u found (λ v h. ground (arith, active)) c)

pub save_order-IsKeyed : (db : Database) (o' : Order) → IsKeyed db → IsKeyed (save_order db o')
unfolding save_order
save_order-IsKeyed db o' k = record {
  sectors = k.sectors;
  event_sectors = k.event_sectors;
  event_ticket_types = k.event_ticket_types;
  ticket_instances = k.ticket_instances;
  instances_below = k.instances_below;
  instances_ordered = k.instances_ordered;
  orders =
      Unique-update (λ o. o.id) (λ r. r.id == o'.id) (λ _. o') db.orders (λ r. ground arith)
        k.orders;
  orders_below =
      All-update _ _ (λ r. r.id == o'.id) (λ _. o') db.orders (λ r h. ground arith) k.orders_below;
}

-- A price that was right stays right.
renewed-IsPriced :
    (ts : List TicketInstance) (os : List Order) (o o' : Order)
    → scalar (λ r. r.id == o.id) os ≡ some o
    → Renews o o'
    → All (IsPriced ts) os
    → IsPriced ts o'
renewed-IsPriced ts os o o' found renews p counted =
    let before = scalar-All (IsPriced ts) _ os o p found (renews.counted counted) in
    subst (λ j. o'.total_price ≡ cart_total ts j) (sym renews.same_id) (renews.same_total ∙ before)

pub save_order-IsConsistent :
    (db : Database) (o o' : Order)
    → scalar (λ r. r.id == o.id) db.orders ≡ some o
    → Renews o o'
    → IsConsistent db
    → IsConsistent (save_order db o')
unfolding save_order
save_order-IsConsistent db o o' found renews c = record {
  keyed = save_order-IsKeyed db o' c.keyed;
  active =
      HasOneCart-save db.orders o o' c.keyed.orders found renews.same_id renews.same_user
        renews.active c.active;
  seated = c.seated;
  priced =
      IsPriced-replace db.ticket_instances db.ticket_instances db.orders o'.id o'
        (renewed-IsPriced db.ticket_instances db.orders o o' found renews c.priced) (λ j _. refl)
        c.priced;
}
