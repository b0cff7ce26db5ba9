-- ===== src/Listings/Orders/Details.antt =====
-- Whose order the details show, what its items cost, and that the administrator reads the same.
use ticketing_system.Prelude.{
  ℕ, ◌≡◌, ◌≢◌, refl, true, Option, none, some, arith, ◌==◌, ap, sym, ◌∙◌, ==_iff, subst,
}
use ticketing_system.Errors.{Error, ok, err, or_raise, not_found, on_ok}
use ticketing_system.Table.{scalar, sum}
use ticketing_system.Table.Laws.{scalar_holds, scalar-All}
use ticketing_system.Table.Replace.{Unique-scalar}
use ticketing_system.Table.Search.{scalar_narrow, scalar_refused, sum-select}
use ticketing_system.Schema.{Database, Order, TicketInstance, Account, is_counted}
use ticketing_system.Invariants.{IsConsistent, IsPriced}
use ticketing_system.Listings.Joins.{joined, joined-All, some_injective, bind_some}
use ticketing_system.Listings.Orders.{
  OrderDetails, AdminOrderDetails, to_order_details, completed_payment, get_user_order,
  get_order_admin, user_of, in_order, admin_details,
}

ok_found {ℓ κ} :
    {A : Type ℓ} {B : Type κ} (f : A → B) (o : Option A) (missing : Error) (b : B)
    → on_ok f (or_raise o missing) ≡ ok b
    → (a : A) × (o ≡ some a) × (f a ≡ b)
ok_found f none missing b e = cc
ok_found f (some a) missing b e = (a, refl, cc)

module _ (created_at : ℕ → ℕ) (db : Database) (c : IsConsistent db) where
  abbrev price_of : TicketInstance → ℕ
  price_of t = t.price_gross_snapshot

  -- For a consistent database and an order of it: its user reads its details, whose price is, for an order
  -- that is not cancelled, the sum of the gross prices of the items shown; any other user is told that no
  -- such order was found.
  pub get_user_order_lem :
      (order_id user_id : ℕ) (o : Order)
      → scalar (λ (x : Order). x.id == order_id) db.orders ≡ some o
      → (o.user_id ≡ user_id
          → (d : OrderDetails) × (get_user_order created_at db user_id order_id ≡ ok d)
            × (d.id ≡ order_id)
            × (is_counted d.status ≡ true → d.total_price ≡ sum (λ _. true) price_of d.items))
        × (o.user_id ≢ user_id
            → get_user_order created_at db user_id order_id ≡ err (not_found "Order not found"))
  unfolding get_user_order to_order_details
  get_user_order_lem order_id user_id o found =
      let mine = λ (h : o.user_id ≡ user_id).
        scalar_narrow (λ (x : Order). x.id == order_id) (λ x. x.user_id == user_id) db.orders o
          found ((==_iff o.user_id user_id).1 h) in
      let priced = scalar-All (IsPriced db.ticket_instances) _ db.orders o c.priced found in
      (
        λ h. (
          to_order_details created_at db o (completed_payment db order_id),
          rw (mine h) refl,
          (==_iff o.id order_id).0 (scalar_holds _ db.orders o found),
          λ counted. priced counted ∙ sym (sum-select (in_order o.id) price_of db.ticket_instances),
        ),
        λ other.
            rw
              (scalar_refused (λ (x : Order). x.id) order_id (λ x. x.user_id == user_id) db.orders o
                c.keyed.orders found (ground (arith, other)))
              refl,
      )

  -- A row of the joined tables shows an order that its key names.
  HasOrder : Order × Account → Type 0
  HasOrder (o, a) = scalar (λ (x : Order). x.id == o.id) db.orders ≡ some o

  user_of-HasOrder :
      (o : Order) (r : Order × Account)
      → scalar (λ (x : Order). x.id == o.id) db.orders ≡ some o
      → user_of db o ≡ some r
      → HasOrder r
  unfolding HasOrder
  user_of-HasOrder o r h e =
      let (a, _, k) =
        bind_some (scalar (λ (a : Account). a.user.id == o.user_id) db.accounts) _ r e in
      subst HasOrder (some_injective k) h

  -- For a consistent database, what an administrator reads of an order is what the order's user reads.
  pub get_order_admin-get_user_order :
      (order_id : ℕ) (a : AdminOrderDetails)
      → get_order_admin created_at db order_id ≡ ok a
      → get_user_order created_at db a.user_id order_id ≡ ok a.details
  unfolding get_order_admin get_user_order HasOrder
  get_order_admin-get_user_order order_id a e =
      let rows =
        joined-All _ HasOrder (user_of db) user_of-HasOrder db.orders
          (Unique-scalar (λ (x : Order). x.id) db.orders c.keyed.orders) in
      let ((o, owner), found, shown) =
        ok_found (admin_details created_at db)
          (scalar (λ r. r.0.id == order_id) (joined (user_of db) db.orders))
          (not_found "Order not found") a e in
      let key =
        (==_iff o.id order_id).0
          (scalar_holds _ (joined (user_of db) db.orders) (o, owner) found) in
      let row = scalar-All HasOrder _ (joined (user_of db) db.orders) (o, owner) rows found in
      let mine =
        scalar_narrow (λ (x : Order). x.id == order_id) (λ x. x.user_id == o.user_id) db.orders o
          (rw (← key) row) ((==_iff o.user_id o.user_id).1 refl) in
      subst
        (λ (d : AdminOrderDetails). get_user_order created_at db d.user_id order_id ≡ ok d.details)
        shown
        (rw mine
          (ap (λ k. ok (to_order_details created_at db o (completed_payment db k))) (sym key)))
