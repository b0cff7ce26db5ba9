-- ===== src/Booking/Reserve/Consistent.antt =====
-- A reservation keeps the booking tables consistent.
use ticketing_system.Prelude.{
  ℕ, suc, ◌+◌, ◌<◌, ◌≡◌, refl, ◌≢◌, Bool, true, false, List, [], ◌∷◌, ◌++◌, some, arith, ◌==◌, inl,
  inr, Bool-cases, All, subst, sym, ==_iff,
}
use ticketing_system.Errors.{Ensures, Ensures-map}
use ticketing_system.Table.{scalar, exists, count, sum, update, Unique}
use ticketing_system.Table.Laws.{
  All-append, All-map, All-update, count-append, count-exists, scalar-All, scalar_holds,
}
use ticketing_system.Table.Keys.{exists_fresh, Unique-append_one, Unique-update, scalar-key}
use ticketing_system.Schema.{Database, Order, OrderStatus, EventSector, TicketInstance, is_counted}
use ticketing_system.Booking.Orders.{
  is_available, take_ticket, save_order, extend_reservation, bump_total, is_users,
}
use ticketing_system.Booking.Reserve.{
  has_active_order, same_seat, new_order, insert_order, Booking, reserve,
}
use ticketing_system.Booking.Reserve.Outcome.{
  after_place, place, with_order, Reserved, reserve-Reserved,
}
use ticketing_system.Invariants.{IsKeyed, IsConsistent, IsPriced, HasOneCart, cart_total}
use ticketing_system.Invariants.Rows.{
  HasOneCart-replace, IsPriced-replace, HasOneHolder-append, cart_total-append,
}

-- No instance stands in an order that was not there.
cart_total-fresh :
    (ts : List TicketInstance) (k : ℕ) → All (λ t. t.order_id < k) ts → cart_total ts k ≡ 0
unfolding sum
cart_total-fresh [] k h = refl
cart_total-fresh (t ∷ ts) k h = ground (arith, cart_total-fresh ts k h.1, h.0)

module _ (db : Database) (user_id started : ℕ) where
  abbrev pub made : Order
  made = new_order db.next.order_id user_id started

  abbrev pub inserted : Database
  inserted = record db {
    orders = db.orders ++ made ∷ [];
    next = record (db.next) { order_id = suc db.next.order_id };
  }

  pub inserted-IsKeyed : IsKeyed db → IsKeyed inserted
  inserted-IsKeyed k = record {
    sectors = k.sectors;
    event_sectors = k.event_sectors;
    event_ticket_types = k.event_ticket_types;
    orders =
        Unique-append_one (λ o. o.id) db.orders made k.orders
          (exists_fresh (λ o. o.id) db.next.order_id db.orders k.orders_below);
    ticket_instances = k.ticket_instances;
    orders_below =
        All-append _ db.orders (made ∷ [])
          (All-map _ _ db.orders (λ o h. omega arith) k.orders_below) (omega arith, tt);
    instances_below = k.instances_below;
    instances_ordered = All-map _ _ db.ticket_instances (λ t h. omega arith) k.instances_ordered;
  }

  inserted-HasOneCart :
      exists (has_active_order user_id) db.orders ≡ false
      → HasOneCart db.orders
      → HasOneCart inserted.orders
  unfolding count
  inserted-HasOneCart none_active c u =
      rw (count-append (has_active_order u) db.orders (made ∷ []))
        (elim (Bool-cases (user_id == u)) [
          | inl same ↦
              let u_inactive =
                subst (λ j. exists (has_active_order j) db.orders ≡ false)
                  ((==_iff user_id u).0 same) none_active in
              rw same (omega (arith, count-exists (has_active_order u) db.orders u_inactive))
          | inr other ↦ rw other (omega (arith, c u))
        ])

  inserted-IsConsistent :
      exists (has_active_order user_id) db.orders ≡ false → IsConsistent db → IsConsistent inserted
  inserted-IsConsistent none_active c = record {
    keyed = inserted-IsKeyed c.keyed;
    active = inserted-HasOneCart none_active c.active;
    seated = c.seated;
    priced = All-append _ db.orders (made ∷ []) c.priced (
      (λ _. sym (cart_total-fresh db.ticket_instances db.next.order_id c.keyed.instances_ordered)),
      tt,
    );
  }

  -- The order is added, or the user had an active one and nothing happens.
  pub insert_order_cases {ℓ} :
      (P : Database → Type ℓ)
      → (exists (has_active_order user_id) db.orders ≡ true → P db)
      → (exists (has_active_order user_id) db.orders ≡ false → P inserted)
      → P (insert_order db user_id started)
  unfolding insert_order
  insert_order_cases P old new = elim (Bool-cases (exists (has_active_order user_id) db.orders)) [
    | inl some_active ↦ rw some_active (old some_active)
    | inr none_active ↦ rw none_active (new none_active)
  ]

  pub insert_order-IsConsistent : IsConsistent db → IsConsistent (insert_order db user_id started)
  insert_order-IsConsistent c =
      insert_order_cases IsConsistent (λ _. c) (λ none_active. inserted-IsConsistent none_active c)

pub insert_order_keeps {ℓ} :
    (P : Database → Type ℓ) (db : Database) (user_id started : ℕ)
    → P db
    → P (inserted db user_id started)
    → P (insert_order db user_id started)
insert_order_keeps P db user_id started old new =
    insert_order_cases db user_id started P (λ _. old) (λ _. new)

after_place-Unique :
    (is_ga : Bool) (ss : List EventSector) (k : ℕ)
    → Unique (λ s. s.id) ss
    → Unique (λ s. s.id) (after_place is_ga ss k)
after_place-Unique true ss k u =
    Unique-update (λ s. s.id) (is_available k) take_ticket ss (λ r. ground arith) u
after_place-Unique false ss k u = u

-- An instance is added to an order of the user, whose total grows by its price.
module _ (is_ga : Bool) (db : Database) (k : ℕ) (t : TicketInstance) (o o' : Order)
    (c : IsConsistent db) (found : scalar (λ r. r.id == o.id) db.orders ≡ some o) where
  placed-IsKeyed :
      t.id ≡ db.next.ticket_instance_id
      → t.order_id ≡ o.id
      → o'.id ≡ o.id
      → IsKeyed (save_order (place is_ga db k t) o')
  unfolding save_order
  placed-IsKeyed new_id ordered same_id = record {
    sectors = c.keyed.sectors;
    event_sectors = after_place-Unique is_ga db.event_sectors k c.keyed.event_sectors;
    event_ticket_types = c.keyed.event_ticket_types;
    orders =
        Unique-update (λ o. o.id) (λ r. r.id == o'.id) (λ _. o') db.orders (λ r. ground arith)
          c.keyed.orders;
    ticket_instances =
        Unique-append_one (λ t. t.id) db.ticket_instances t c.keyed.ticket_instances
          (rw new_id (
            exists_fresh (λ t. t.id) db.next.ticket_instance_id db.ticket_instances
              c.keyed.instances_below));
    orders_below =
        All-update _ _ (λ r. r.id == o'.id) (λ _. o') db.orders (λ r h. ground arith)
          c.keyed.orders_below;
    instances_below =
        All-append _ db.ticket_instances (t ∷ [])
          (All-map _ _ db.ticket_instances (λ r h. omega arith) c.keyed.instances_below)
          (omega arith, tt);
    instances_ordered = All-append _ db.ticket_instances (t ∷ []) c.keyed.instances_ordered (
      rw ordered
          (scalar-All (λ r. r.id < db.next.order_id) _ db.orders o c.keyed.orders_below found),
      tt,
    );
  }

  total-grows :
      t.order_id ≡ o.id
      → o'.id ≡ o.id
      → is_counted o.status ≡ true
      → o'.total_price ≡ o.total_price + t.price_gross_snapshot
      → o'.total_price ≡ cart_total (db.ticket_instances ++ t ∷ []) o'.id
  total-grows ordered same_id counted grown =
      let before = scalar-All (IsPriced db.ticket_instances) _ db.orders o c.priced found counted in
      rw same_id (ground (arith, before, cart_total-append db.ticket_instances t o.id))

  other_total :
      t.order_id ≡ o.id
      → o'.id ≡ o.id
      → (j : ℕ) → j ≢ o'.id
      → cart_total (db.ticket_instances ++ t ∷ []) j ≡ cart_total db.ticket_instances j
  other_total ordered same_id j other = ground (arith, cart_total-append db.ticket_instances t j)

  pub placed-IsConsistent :
      exists (same_seat t.event_id t.seat_id) db.ticket_instances ≡ false
      → t.id ≡ db.next.ticket_instance_id
      → t.order_id ≡ o.id
      → o'.id ≡ o.id
      → ((user_id : ℕ) → has_active_order user_id o' ≡ true → has_active_order user_id o ≡ true)
      → is_counted o.status ≡ true
      → o'.total_price ≡ o.total_price + t.price_gross_snapshot
      → IsConsistent (save_order (place is_ga db k t) o')
  unfolding save_order
  placed-IsConsistent free new_id ordered same_id inactive counted grown = record {
    keyed = placed-IsKeyed new_id ordered same_id;
    active =
        subst (λ j. HasOneCart (update (λ r. r.id == j) (λ _. o') db.orders)) (sym same_id)
          (HasOneCart-replace db.orders o o' c.keyed.orders found inactive c.active);
    seated = HasOneHolder-append db.ticket_instances t free c.seated;
    priced =
        IsPriced-replace db.ticket_instances (db.ticket_instances ++ t ∷ []) db.orders o'.id o'
          (λ _. total-grows ordered same_id counted grown)
          (λ j other. other_total ordered same_id j other) c.priced;
  }

pending-counted :
    (u : ℕ) (o : Order) → is_users u OrderStatus.pending o ≡ true → is_counted o.status ≡ true
pending-counted u o h = ground arith

-- A reservation keeps the booking tables consistent.
pub reserve_ticket-IsConsistent :
    (db : Database) (b : Booking)
    → IsConsistent db
    → Ensures (λ (r : (Order × TicketInstance) × Database). IsConsistent r.1) (reserve db b)
unfolding extend_reservation bump_total
reserve_ticket-IsConsistent db b c = Ensures-map _ (λ r v. kept r v) (reserve-Reserved db b)
  where
    kept : (r : (Order × TicketInstance) × Database) → Reserved db b r → IsConsistent r.1
    kept r v =
        let c1 = insert_order-IsConsistent db b.user_id b.started c in
        let pending = scalar_holds _ _ _ v.order_found in
        rw v.written (
          placed-IsConsistent v.sector.is_ga (with_order db b) v.ett.event_sector_id r.0.1 v.order
            r.0.0 c1 (scalar-key (λ o. o.id) _ _ _ c1.keyed.orders v.order_found) v.placed.seat_free
            (rw v.instance_made refl) (rw v.instance_made refl) (rw v.order_changed refl)
            (rw v.order_changed (λ u h. h)) (pending-counted b.user_id v.order pending)
            (rw v.order_changed (ground arith)))
