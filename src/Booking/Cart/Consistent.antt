-- ===== src/Booking/Cart/Consistent.antt =====
-- The cart's operations keep the booking tables consistent.
use ticketing_system.Prelude.{
  ℕ, ltb, ◌+◌, ◌≡◌, refl, Bool, true, false, not, ◌&&◌, List, some, none, Option, arith, ◌==◌,
  if◌then◌else◌,
}
use ticketing_system.Errors.{
  Ensures, Ensures-map, Ensures-bind, Ensures-raise_if, returned, or_raise, or_raise_ok,
}
use ticketing_system.Table.{scalar, exists, delete, Unique}
use ticketing_system.Table.Laws.{scalar_holds, scalar-All, All-delete}
use ticketing_system.Table.Keys.{sum-delete_key, Unique-delete, Unique-update, scalar-key}
use ticketing_system.Schema.{
  Database, Order, TicketInstance, TicketHolder, Invoice, OrderStatus, is_counted,
}
use ticketing_system.Booking.Orders.{
  is_users, require_order, return_tickets, ga_increment, bump_total, save_order,
}
use ticketing_system.Booking.Orders.Save.{
  row_of_users, HasOneCart-save, save_order-IsKeyed, save_order-IsConsistent,
}
use ticketing_system.Booking.Cart.{
  return_to_sector, remove_ticket_instance, HolderData, put_holder, upsert_ticket_holder,
  set_invoice_requested, InvoiceData, put_invoice, upsert_invoice,
}
use ticketing_system.Booking.Cart.Removal.{
  without_instance, cheaper, Removed, remove_ticket_instance-Removed,
}
use ticketing_system.Invariants.{IsConsistent, IsPriced, cart_total, Preserves}
use ticketing_system.Invariants.Rows.{IsPriced-replace, HasOneHolder-delete}

return_to_sector-IsConsistent :
    (is_ga : Bool) (db : Database) (k : ℕ)
    → IsConsistent db
    → IsConsistent (return_to_sector is_ga db k)
unfolding ga_increment
return_to_sector-IsConsistent true db k c = record {
  keyed = record {
    sectors = c.keyed.sectors;
    event_sectors =
        Unique-update (λ s. s.id) (λ s. s.id == k) (return_tickets 1) db.event_sectors
          (λ r. ground arith) c.keyed.event_sectors;
    event_ticket_types = c.keyed.event_ticket_types;
    orders = c.keyed.orders;
    ticket_instances = c.keyed.ticket_instances;
    orders_below = c.keyed.orders_below;
    instances_below = c.keyed.instances_below;
    instances_ordered = c.keyed.instances_ordered;
  };
  active = c.active;
  seated = c.seated;
  priced = c.priced;
}
return_to_sector-IsConsistent false db k c = c

-- The sectors alone change.
return_to_sector_keeps {ℓ} :
    (P : List TicketInstance → List Order → Type ℓ) (is_ga : Bool) (db : Database) (k : ℕ)
    → P db.ticket_instances db.orders
    → P (return_to_sector is_ga db k).ticket_instances (return_to_sector is_ga db k).orders
unfolding ga_increment
return_to_sector_keeps P true db k h = h
return_to_sector_keeps P false db k h = h

-- The total after one instance is gone: its order lost the price, the others nothing.
cart_total-delete :
    (ts : List TicketInstance) (t : TicketInstance) (k : ℕ)
    → Unique (λ t. t.id) ts
    → scalar (λ s. s.id == t.id) ts ≡ some t
    → cart_total (delete (λ s. s.id == t.id) ts) k
        + (if t.order_id == k then t.price_gross_snapshot else 0)
      ≡ cart_total ts k
cart_total-delete ts t k u e =
    sum-delete_key (λ t. t.id) (λ t. t.order_id == k) (λ t. t.price_gross_snapshot) t.id t ts u e

module _ (db : Database) (t : TicketInstance) (o : Order) (c : IsConsistent db)
    (t_found : scalar (λ s. s.id == t.id) db.ticket_instances ≡ some t)
    (o_found : scalar (λ r. r.id == o.id) db.orders ≡ some o) (in_order : o.id ≡ t.order_id)
    (counted : is_counted o.status ≡ true) where
  remaining : List TicketInstance
  remaining = delete (λ s. s.id == t.id) db.ticket_instances

  -- What is left costs the old total less the price, which the total covers.
  cheaper-IsPriced : (cheaper o t).total_price ≡ cart_total remaining o.id
  unfolding remaining bump_total
  cheaper-IsPriced =
      let before =
        scalar-All (IsPriced db.ticket_instances) _ db.orders o c.priced o_found counted in
      ground (
        arith,
        before,
        cart_total-delete db.ticket_instances t o.id c.keyed.ticket_instances t_found,
      )

  removed-IsConsistent : IsConsistent (without_instance (save_order db (cheaper o t)) t)
  unfolding save_order bump_total remaining
  removed-IsConsistent =
      let keyed = save_order-IsKeyed db (cheaper o t) c.keyed in
      record {
        keyed = record {
          sectors = keyed.sectors;
          event_sectors = keyed.event_sectors;
          event_ticket_types = keyed.event_ticket_types;
          orders = keyed.orders;
          ticket_instances = Unique-delete (λ t. t.id) _ db.ticket_instances keyed.ticket_instances;
          orders_below = keyed.orders_below;
          instances_below = All-delete _ _ db.ticket_instances keyed.instances_below;
          instances_ordered = All-delete _ _ db.ticket_instances keyed.instances_ordered;
        };
        active =
            HasOneCart-save db.orders o (cheaper o t) c.keyed.orders o_found refl refl (λ h. h)
              c.active;
        seated = HasOneHolder-delete db.ticket_instances _ c.seated;
        priced =
            IsPriced-replace db.ticket_instances remaining db.orders o.id (cheaper o t)
              (λ _. cheaper-IsPriced)
              (λ j other.
                ground (
                  arith,
                  cart_total-delete db.ticket_instances t j c.keyed.ticket_instances t_found,
                ))
              c.priced;
      }

pending-counted :
    (u : ℕ) (o : Order) → is_users u OrderStatus.pending o ≡ true → is_counted o.status ≡ true
pending-counted u o h = ground arith

-- Removing an item keeps the booking tables consistent.
pub remove_ticket_instance-IsConsistent :
    (nullifies : Bool) (db : Database) (user_id ticket_instance_id : ℕ)
    → IsConsistent db
    → Ensures
        (λ (r : Unit {0} × Database). IsConsistent r.1)
        (remove_ticket_instance nullifies db user_id ticket_instance_id)
unfolding ga_increment
remove_ticket_instance-IsConsistent nullifies db user_id id c =
    Ensures-map _ (λ r v. kept r v) (remove_ticket_instance-Removed nullifies db user_id id)
  where
    kept : (r : Unit {0} × Database) → Removed db user_id id r → IsConsistent r.1
    kept r v =
        let t_row =
          scalar-key (λ t. t.id) _ db.ticket_instances v.t c.keyed.ticket_instances v.t_found in
        let o_row = row_of_users db user_id _ v.order c.keyed v.order_found in
        let back = return_to_sector v.sector.is_ga db v.ett.event_sector_id in
        rw v.written (
          removed-IsConsistent back v.t v.order
            (return_to_sector-IsConsistent v.sector.is_ga db v.ett.event_sector_id c)
            (return_to_sector_keeps (λ ts os. scalar (λ s. s.id == v.t.id) ts ≡ some v.t)
              v.sector.is_ga db v.ett.event_sector_id t_row)
            (return_to_sector_keeps (λ ts os. scalar (λ r. r.id == v.order.id) os ≡ some v.order)
              v.sector.is_ga db v.ett.event_sector_id o_row)
            (ground (arith, v.in_order))
            (pending-counted user_id v.order (scalar_holds _ db.orders v.order v.order_found)))

put_holder-Preserves :
    (db : Database) (t : TicketInstance) (schema : HolderData) (h : Option TicketHolder)
    → IsConsistent db
    → Preserves db (put_holder db t schema h).1
unfolding put_holder
put_holder-Preserves db t schema none c = record { consistent = c; same_stock = λ k g. (g, refl) }
put_holder-Preserves db t schema (some h) c = record {
  consistent = c;
  same_stock = λ k g. (g, refl);
}

put_invoice-Preserves :
    (db : Database) (order_id : ℕ) (schema : InvoiceData) (i : Option Invoice)
    → IsConsistent db
    → Preserves db (put_invoice db order_id schema i).1
unfolding put_invoice
put_invoice-Preserves db order_id schema none c = record {
  consistent = c;
  same_stock = λ k g. (g, refl);
}
put_invoice-Preserves db order_id schema (some i) c = record {
  consistent = c;
  same_stock = λ k g. (g, refl);
}

pub upsert_ticket_holder-Preserves :
    (db : Database) (ticket_instance_id : ℕ) (schema : HolderData) (user_id today : ℕ)
    → IsConsistent db
    → Ensures
        (λ (r : TicketHolder × Database). Preserves db r.1)
        (upsert_ticket_holder db ticket_instance_id schema user_id today)
unfolding upsert_ticket_holder
upsert_ticket_holder-Preserves db id schema user_id today c =
    Ensures-bind (or_raise (scalar _ db.ticket_instances) _) _ λ t _.
      Ensures-raise_if (not (exists (λ e. e.id == t.event_id && e.holder_data_required) db.events))
        _ _
        λ _.
          Ensures-raise_if (ltb today schema.birth_date) _ _
            λ _. returned (put_holder-Preserves db t schema _ c)

pub set_invoice_requested-Preserves :
    (db : Database) (invoice_requested : Bool) (user_id : ℕ)
    → IsConsistent db
    → Ensures
        (λ (r : Unit {0} × Database). Preserves db r.1)
        (set_invoice_requested db invoice_requested user_id)
unfolding set_invoice_requested require_order save_order
set_invoice_requested-Preserves db requested user_id c =
    Ensures-bind (or_raise (scalar (is_users user_id OrderStatus.pending) db.orders) _) _
      λ order found. returned (record {
        consistent =
            save_order-IsConsistent db order (record order { invoice_requested = requested })
              (row_of_users db user_id _ order c.keyed (or_raise_ok _ _ _ found))
              (record {
                same_id = refl;
                same_user = refl;
                active = λ h. h;
                counted = λ h. h;
                same_total = refl;
              })
              c;
        same_stock = λ k g. (g, refl);
      })

pub upsert_invoice-Preserves :
    (db : Database) (schema : InvoiceData) (user_id : ℕ)
    → IsConsistent db
    → Ensures (λ (r : Invoice × Database). Preserves db r.1) (upsert_invoice db schema user_id)
unfolding upsert_invoice require_order
upsert_invoice-Preserves db schema user_id c =
    Ensures-bind (or_raise (scalar (is_users user_id OrderStatus.pending) db.orders) _) _
      λ order found.
        Ensures-raise_if (not order.invoice_requested) _ _
          λ _. returned (put_invoice-Preserves db order.id schema _ c)
