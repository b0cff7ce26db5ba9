-- ===== src/Booking/Cart/Purchases.antt =====
-- The cart's operations leave what is bought alone.
use ticketing_system.Prelude.{
  ℕ, ltb, ◌≡◌, refl, Bool, true, false, not, ◌&&◌, some, none, Option, arith, ◌==◌, Bool-cases, inl,
  inr, subst, sym, ◌∙◌, ap, ==_iff,
}
use ticketing_system.Errors.{
  Ensures, Ensures-map, Ensures-bind, Ensures-raise_if, returned, or_raise, or_raise_ok,
}
use ticketing_system.Table.{scalar, exists}
use ticketing_system.Table.Laws.{scalar_holds}
use ticketing_system.Schema.{Database, OrderStatus, TicketInstance, TicketHolder, Invoice}
use ticketing_system.Booking.Orders.{is_users, require_order, ga_increment, bump_total, save_order}
use ticketing_system.Booking.Orders.Save.{row_of_users}
use ticketing_system.Booking.Reserve.Purchases.{users_not_completed}
use ticketing_system.Booking.Cart.{
  return_to_sector, remove_ticket_instance, HolderData, put_holder, upsert_ticket_holder,
  set_invoice_requested, InvoiceData, put_invoice, upsert_invoice,
}
use ticketing_system.Booking.Cart.Removal.{
  Removed, remove_ticket_instance-Removed, without_instance, cheaper,
}
use ticketing_system.Invariants.{IsKeyed}
use ticketing_system.Invariants.Purchases.{
  Purchases, Purchases-refl, Purchases-trans, save_order-Purchases, is_of, scalar-delete,
}

return_to_sector-Purchases :
    (is_ga : Bool) (db : Database) (j : ℕ) → Purchases db (return_to_sector is_ga db j)
unfolding ga_increment
return_to_sector-Purchases true db j = record {
  orders = λ o c h. h;
  tickets = λ k h. h;
  issued = λ i h. h;
  instances = λ t i h. h;
}
return_to_sector-Purchases false db j = Purchases-refl db

return_to_sector_orders :
    (is_ga : Bool) (db : Database) (j : ℕ)
    → ((return_to_sector is_ga db j).orders ≡ db.orders)
      × ((return_to_sector is_ga db j).tickets ≡ db.tickets)
unfolding ga_increment
return_to_sector_orders true db j = (refl, refl)
return_to_sector_orders false db j = (refl, refl)

-- An instance without a ticket may go.
without_instance-Purchases :
    (db : Database) (t : TicketInstance)
    → exists (is_of t.id) db.tickets ≡ false
    → Purchases db (without_instance db t)
without_instance-Purchases db t unissued = record {
  orders = λ o c h. h;
  tickets = λ k h. h;
  issued = λ i h. h;
  instances = λ s issued h.
      scalar-delete (λ r. r.id == s.id) (λ r. r.id == t.id) db.ticket_instances s
        (λ x at same. elim (Bool-cases (x.id == t.id)) [
          | inr miss ↦ miss
          | inl hit ↦
              let s_t : s.id ≡ t.id = ap (λ y. y.id) (sym same) ∙ (==_iff x.id t.id).0 hit in
              absurd (
                ground
                  (arith, subst (λ i. exists (is_of i) db.tickets ≡ true) s_t issued, unissued))
        ])
        h;
}

pub remove_ticket_instance-Purchases :
    (nullifies : Bool) (db : Database) (user_id ticket_instance_id : ℕ)
    → IsKeyed db
    → Ensures
        (λ (r : Unit {0} × Database). Purchases db r.1)
        (remove_ticket_instance nullifies db user_id ticket_instance_id)
unfolding save_order bump_total
remove_ticket_instance-Purchases nullifies db user_id id keyed =
    Ensures-map _ (λ r v. kept r v) (remove_ticket_instance-Removed nullifies db user_id id)
  where
    kept : (r : Unit {0} × Database) → Removed db user_id id r → Purchases db r.1
    kept r v =
        let back = return_to_sector v.sector.is_ga db v.ett.event_sector_id in
        let same = return_to_sector_orders v.sector.is_ga db v.ett.event_sector_id in
        let row = row_of_users db user_id _ v.order keyed v.order_found in
        let owned = scalar_holds _ db.orders v.order v.order_found in
        rw v.written (
          Purchases-trans db back _
            (return_to_sector-Purchases v.sector.is_ga db v.ett.event_sector_id)
            (Purchases-trans back (save_order back (cheaper v.order v.t)) _
              (save_order-Purchases back v.order (cheaper v.order v.t)
                (subst (λ os. scalar (λ r. r.id == v.order.id) os ≡ some v.order) (sym same.0) row)
                (users_not_completed user_id v.order owned) refl)
              (without_instance-Purchases (save_order back (cheaper v.order v.t)) v.t
                (subst (λ ks. exists (is_of v.t.id) ks ≡ false) (sym same.1) v.unissued))))

put_holder-Purchases :
    (db : Database) (t : TicketInstance) (schema : HolderData) (h : Option TicketHolder)
    → Purchases db (put_holder db t schema h).1
unfolding put_holder
put_holder-Purchases db t schema none = record {
  orders = λ o c h. h;
  tickets = λ k h. h;
  issued = λ i h. h;
  instances = λ t i h. h;
}
put_holder-Purchases db t schema (some h) = record {
  orders = λ o c h. h;
  tickets = λ k h. h;
  issued = λ i h. h;
  instances = λ t i h. h;
}

put_invoice-Purchases :
    (db : Database) (order_id : ℕ) (schema : InvoiceData) (i : Option Invoice)
    → Purchases db (put_invoice db order_id schema i).1
unfolding put_invoice
put_invoice-Purchases db order_id schema none = record {
  orders = λ o c h. h;
  tickets = λ k h. h;
  issued = λ i h. h;
  instances = λ t i h. h;
}
put_invoice-Purchases db order_id schema (some i) = record {
  orders = λ o c h. h;
  tickets = λ k h. h;
  issued = λ i h. h;
  instances = λ t i h. h;
}

pub upsert_ticket_holder-Purchases :
    (db : Database) (ticket_instance_id : ℕ) (schema : HolderData) (user_id today : ℕ)
    → Ensures
        (λ (r : TicketHolder × Database). Purchases db r.1)
        (upsert_ticket_holder db ticket_instance_id schema user_id today)
unfolding upsert_ticket_holder
upsert_ticket_holder-Purchases db id schema user_id today =
    Ensures-bind (or_raise (scalar _ db.ticket_instances) _) _ λ t _.
      Ensures-raise_if (not (exists (λ e. e.id == t.event_id && e.holder_data_required) db.events))
        _ _
        λ _.
          Ensures-raise_if (ltb today schema.birth_date) _ _
            λ _. returned (put_holder-Purchases db t schema _)

pub set_invoice_requested-Purchases :
    (db : Database) (requested : Bool) (user_id : ℕ)
    → IsKeyed db
    → Ensures
        (λ (r : Unit {0} × Database). Purchases db r.1)
        (set_invoice_requested db requested user_id)
unfolding set_invoice_requested require_order
set_invoice_requested-Purchases db requested user_id keyed =
    Ensures-bind (or_raise (scalar (is_users user_id OrderStatus.pending) db.orders) _) _ λ o e.
      let found = or_raise_ok _ _ _ e in
      returned (
        save_order-Purchases db o (record o { invoice_requested = requested })
          (row_of_users db user_id _ o keyed found)
          (users_not_completed user_id o (scalar_holds _ db.orders o found)) refl)

pub upsert_invoice-Purchases :
    (db : Database) (schema : InvoiceData) (user_id : ℕ)
    → Ensures (λ (r : Invoice × Database). Purchases db r.1) (upsert_invoice db schema user_id)
unfolding upsert_invoice require_order
upsert_invoice-Purchases db schema user_id =
    Ensures-bind (or_raise (scalar (is_users user_id OrderStatus.pending) db.orders) _) _ λ o _.
      Ensures-raise_if (not o.invoice_requested) _ _
        λ _. returned (put_invoice-Purchases db o.id schema _)
