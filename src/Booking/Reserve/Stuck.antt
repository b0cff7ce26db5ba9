-- ===== src/Booking/Reserve/Stuck.antt =====
-- A reservation while an order of the user awaits payment.
use ticketing_system.Prelude.{
  ℕ, ◌+◌, ◌≤◌, ◌≡◌, refl, Bool, false, List, [], ◌∷◌, some, arith, if◌then◌else◌, inl, inr,
  Bool-cases,
}
use ticketing_system.Errors.{is_ok, Result, ok, err, Ensures, Ensures-map, returned, raised}
use ticketing_system.Table.{scalar, count}
use ticketing_system.Table.Laws.{count-exists, count_mono}
use ticketing_system.Schema.{Database, Order, OrderStatus}
use ticketing_system.Booking.Orders.{is_users}
use ticketing_system.Booking.Reserve.{has_active_order, Booking, reserve}
use ticketing_system.Booking.Reserve.Consistent.{insert_order_cases}
use ticketing_system.Booking.Reserve.Outcome.{reserve-Reserved, with_order}
use ticketing_system.Invariants.{IsConsistent, HasOneCart}

-- Rows of two kinds that exclude each other.
count-disjoint {ℓ} :
    {A : Type ℓ} (p q r : A → Bool) (xs : List A)
    → ((x : A) → (if p x then 1 else 0) + (if q x then 1 else 0) ≤ (if r x then 1 else 0))
    → count p xs + count q xs ≤ count r xs
unfolding count
count-disjoint p q r [] h = omega arith
count-disjoint p q r (x ∷ xs) h = omega (arith, h x, count-disjoint p q r xs h)

count-scalar {ℓ} :
    {A : Type ℓ} (p : A → Bool) (xs : List A) (x : A) → scalar p xs ≡ some x → 1 ≤ count p xs
unfolding count scalar
count-scalar p [] x h = absurd (ground (arith, h))
count-scalar p (y ∷ ys) x h = elim (Bool-cases (p y)) [
  | inl hit ↦ rw hit (omega arith)
  | inr miss ↦ rw miss (omega (arith, count-scalar p ys x (ground (arith, h, miss))))
]

-- One active order is not two.
one_status :
    (os : List Order) (user_id : ℕ) (a b : Order)
    → HasOneCart os
    → scalar (is_users user_id OrderStatus.awaiting_payment) os ≡ some a
    → scalar (is_users user_id OrderStatus.pending) os ≡ some b
    → 2 ≤ 1
one_status os user_id a b one ea eb = omega (
  arith,
  one user_id,
  count-scalar _ os a ea,
  count-scalar _ os b eb,
  count-disjoint (is_users user_id OrderStatus.awaiting_payment)
      (is_users user_id OrderStatus.pending) (has_active_order user_id) os (λ o. ground arith),
)

is_ok-nothing {ℓ} : {A : Type ℓ} (r : Result A) → Ensures (λ (a : A). 2 ≤ 1) r → is_ok r ≡ false
is_ok-nothing (ok a) (returned h) = absurd (omega (arith, h))
is_ok-nothing (err e) raised = refl

-- On consistent tables, while an order of the user awaits payment, expired or not, no reservation of
-- the user succeeds, whatever the event, the ticket type, the seat and the time.
pub reserve_ticket_blocked :
    (db : Database) (b : Booking) (o : Order)
    → IsConsistent db
    → scalar (is_users b.user_id OrderStatus.awaiting_payment) db.orders ≡ some o
    → is_ok (reserve db b) ≡ false
reserve_ticket_blocked db b o c found =
    is_ok-nothing (reserve db b)
      (Ensures-map _ (λ r v. contradiction v.order v.order_found) (reserve-Reserved db b))
  where
    contradiction :
        (p : Order)
        → scalar (is_users b.user_id OrderStatus.pending) (with_order db b).orders ≡ some p
        → 2 ≤ 1
    contradiction p =
        insert_order_cases db b.user_id b.started
          (λ d. scalar (is_users b.user_id OrderStatus.pending) d.orders ≡ some p → 2 ≤ 1)
          (λ _ e. one_status db.orders b.user_id o p c.active found e)
          (λ none_active e. omega (
            arith,
            count-scalar _ db.orders o found,
            count-exists (has_active_order b.user_id) db.orders none_active,
            count_mono (is_users b.user_id OrderStatus.awaiting_payment)
                (has_active_order b.user_id) db.orders (λ o h. ground arith),
          ))
