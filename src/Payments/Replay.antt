-- ===== src/Payments/Replay.antt =====
-- The idempotency of `start_payment`.
use ticketing_system.Prelude.{
  ℕ, suc, ltb, leb, ==_refl, subst, ◌≡◌, refl, Bool, true, not, ◌&&◌, List, [], ◌∷◌, ◌++◌, Option,
  none, some, arith, ◌==◌, inl, inr, Bool-cases, Option-cases,
}
use ticketing_system.Errors.{
  on_integrity_error, Ensures, Ensures-map, Ensures_ok, Ensures-bind, Ensures-raise_if,
  Ensures-on_integrity_error, returned, raised, or_raise, or_raise_ok, ok,
}
use ticketing_system.Table.{scalar, exists}
use ticketing_system.Schema.{Database, Order, Payment, PaymentMethod, OrderStatus, is_open}
use ticketing_system.Booking.Orders.{is_users}
use ticketing_system.Booking.Checkout.{is_open_payment}
use ticketing_system.Payments.{
  RedirectUrl, require_awaiting_order, require_payment_method, require_active_payment_method,
  flush_payment, new_payment, replay_payment, reuse_payment, create_payment, start_active,
  start_keyed, start_payment, is_same_payload,
}

abbrev has_key_of : ℕ → Payment → Bool
has_key_of key p = p.idempotency_key == key

scalar-append_one :
    (p : Payment → Bool) (rs : List Payment) (r : Payment)
    → scalar p rs ≡ none
    → p r ≡ true
    → scalar p (rs ++ r ∷ []) ≡ some r
unfolding scalar
scalar-append_one p [] r e h = rw h refl
scalar-append_one p (x ∷ rs) r e h = elim (Bool-cases (p x)) [
  | inl hit ↦ absurd (ground (arith, e, hit))
  | inr miss ↦ rw miss (scalar-append_one p rs r (ground (arith, e, miss)) h)
]

-- What a second start finds: the orders and the methods of before, and the same answer.
pub record Replays (db : Database) (o : Order) (pm : PaymentMethod) (key : ℕ)
    (r : (Payment × Option RedirectUrl) × Database) : Type 0 where
  pub same_orders : r.1.orders ≡ db.orders
  pub same_tickets : r.1.tickets ≡ db.tickets
  pub same_instances : r.1.ticket_instances ≡ db.ticket_instances
  pub same_methods : r.1.payment_methods ≡ db.payment_methods
  pub again : start_keyed r.1 o pm key (scalar (has_key_of key) r.1.payments) ≡ ok r

flush_payment-written :
    (db : Database) (p : Payment)
    → Ensures
        (λ db'. db' ≡ record db {
          payments = db.payments ++ p ∷ [];
          next = record (db.next) { payment_id = suc db.next.payment_id };
        })
        (flush_payment db p)
unfolding flush_payment
flush_payment-written db p =
    Ensures-raise_if (exists (λ q. q.idempotency_key == p.idempotency_key) db.payments) _ _ λ _.
      Ensures-raise_if (is_open p.status && exists (is_open_payment p.order_id) db.payments) _ _
        λ _. returned refl

module _ (db : Database) (o : Order) (pm : PaymentMethod) (key : ℕ) where
  replay_payment-Replays :
      (p : Payment)
      → scalar (has_key_of key) db.payments ≡ some p
      → Ensures (Replays db o pm key) (replay_payment db o pm key p)
  unfolding replay_payment start_keyed
  replay_payment-Replays p found = Ensures-raise_if (not (is_same_payload p o pm)) _ _ λ same.
      returned (record {
        same_orders = refl;
        same_tickets = refl;
        same_instances = refl;
        same_methods = refl;
        again = rw (found, same) refl;
      })

  reuse_payment-Replays :
      (p : Payment)
      → scalar (has_key_of key) db.payments ≡ none
      → scalar (is_open_payment o.id) db.payments ≡ some p
      → Ensures (Replays db o pm key) (reuse_payment db o pm p)
  unfolding reuse_payment start_keyed start_active
  reuse_payment-Replays p fresh found =
      elim (Bool-cases (p.payment_method_id == pm.id && p.amount == o.total_price)) [
        | inl same ↦ rw same (elim (Bool-cases (is_open p.status)) [
          | inl e ↦ rw e (
              returned (record {
                same_orders = refl;
                same_tickets = refl;
                same_instances = refl;
                same_methods = refl;
                again = rw (fresh, found, same, e) refl;
              }))
          | inr e ↦ rw e (
              returned (record {
                same_orders = refl;
                same_tickets = refl;
                same_instances = refl;
                same_methods = refl;
                again = rw (fresh, found, same, e) refl;
              }))
        ])
        | inr other ↦ rw other raised
      ]

  create_payment-Replays :
      scalar (has_key_of key) db.payments ≡ none
      → Ensures (Replays db o pm key) (create_payment db o pm key)
  unfolding create_payment flush_payment start_keyed replay_payment
  create_payment-Replays fresh = Ensures-bind (on_integrity_error (flush_payment db p) _) _ λ db1 e.
      rw (Ensures_ok _ (Ensures-on_integrity_error _ _ (flush_payment-written db p)) e) (
        returned (record {
          same_orders = refl;
          same_tickets = refl;
          same_instances = refl;
          same_methods = refl;
          again =
              rw
                (
                  scalar-append_one (has_key_of key) db.payments p fresh (==_refl key),
                  ==_refl o.id,
                  ==_refl pm.id,
                  ==_refl o.total_price,
                )
                refl;
        }))
    where
      p : Payment
      p = new_payment db o pm key

  pub start_keyed-Replays :
      Ensures (Replays db o pm key) (start_keyed db o pm key (scalar (has_key_of key) db.payments))
  unfolding start_keyed start_active
  start_keyed-Replays = elim (Option-cases (scalar (has_key_of key) db.payments)) [
    | inr (p, found) ↦ rw found (replay_payment-Replays p found)
    | inl fresh ↦ rw fresh (elim (Option-cases (scalar (is_open_payment o.id) db.payments)) [
      | inl none_open ↦ rw none_open (create_payment-Replays fresh)
      | inr (p, found) ↦ rw found (reuse_payment-Replays p fresh found)
    ])
  ]

-- The order of the user that awaits payment.
require_awaiting_order-row :
    (db : Database) (user_id now : ℕ)
    → Ensures
        (λ o. scalar (is_users user_id OrderStatus.awaiting_payment) db.orders ≡ some o)
        (require_awaiting_order db user_id now)
unfolding require_awaiting_order
require_awaiting_order-row db user_id now =
    Ensures-bind (or_raise (scalar (is_users user_id OrderStatus.awaiting_payment) db.orders) _) _
      λ o e.
        Ensures-raise_if (ltb o.reserved_until now) _ _
          λ _. Ensures-raise_if (leb o.total_price 0) _ _ λ _. returned (or_raise_ok _ _ _ e)

require_awaiting_order-same :
    (db db' : Database) (user_id now : ℕ)
    → db'.orders ≡ db.orders
    → require_awaiting_order db' user_id now ≡ require_awaiting_order db user_id now
unfolding require_awaiting_order
require_awaiting_order-same db db' user_id now e = rw e refl

require_active_payment_method-same :
    (db db' : Database) (pm_id : ℕ)
    → db'.payment_methods ≡ db.payment_methods
    → require_active_payment_method db' pm_id ≡ require_active_payment_method db pm_id
unfolding require_active_payment_method require_payment_method
require_active_payment_method-same db db' pm_id e = rw e refl

module _ (db : Database) (user_id pm_id key now later : ℕ) (o : Order)
    (waiting : require_awaiting_order db user_id later ≡ ok o) where
  start_payment_again :
      Ensures
        (λ (r : (Payment × Option RedirectUrl) × Database).
          start_payment r.1 user_id pm_id key later ≡ ok r)
        (start_payment db user_id pm_id key now)
  unfolding start_payment
  start_payment_again = Ensures-bind (require_awaiting_order db user_id now) _ λ o1 e1.
      Ensures-bind (require_active_payment_method db pm_id) _ λ pm e2.
        let row = Ensures_ok _ (require_awaiting_order-row db user_id now) e1 in
        let row' = Ensures_ok _ (require_awaiting_order-row db user_id later) waiting in
        let same : o1 ≡ o = cc in
        Ensures-map _
          (λ r v.
            rw
              (
                require_awaiting_order-same db r.1 user_id later v.same_orders,
                waiting,
                require_active_payment_method-same db r.1 pm_id v.same_methods,
                e2,
              )
              (subst (λ o. start_keyed r.1 o pm key (scalar (has_key_of key) r.1.payments) ≡ ok r)
                same v.again))
          (start_keyed-Replays db o1 pm key)

-- A start that is repeated with the same key while the order still awaits payment, is not expired
-- and costs something, gives the same payment and redirect and changes nothing, whether the first
-- one created the payment, found its key or reused the one in progress.
pub start_payment_replays :
    (db : Database) (user_id pm_id key now later : ℕ) (o : Order)
    (r : (Payment × Option RedirectUrl) × Database)
    → start_payment db user_id pm_id key now ≡ ok r
    → require_awaiting_order db user_id later ≡ ok o
    → start_payment r.1 user_id pm_id key later ≡ ok r
start_payment_replays db user_id pm_id key now later o r e waiting =
    Ensures_ok _ (start_payment_again db user_id pm_id key now later o waiting) e
