-- ===== src/Invariants/Rows.antt =====
-- How the invariants of the booking tables stand when a row is added, replaced or deleted.
use ticketing_system.Prelude.{
  ℕ, ◌+◌, ◌≡◌, ◌≢◌, Bool, true, false, List, [], ◌∷◌, ◌++◌, some, arith, ◌==◌, if◌then◌else◌, inl,
  inr, Bool-cases, All, Option-cases, subst, sym, ap, ◌∙◌,
}
use ticketing_system.Table.{scalar, exists, count, sum, update, delete, Unique}
use ticketing_system.Table.Laws.{
  count-append, sum-append, count-exists, All-update, count-delete-le,
}
use ticketing_system.Table.Keys.{count-replace}
use ticketing_system.Schema.{Order, TicketInstance}
use ticketing_system.Booking.Reserve.{has_active_order, same_seat}
use ticketing_system.Invariants.Consistency.{cart_total, IsPriced, HasOneCart, HasOneHolder}

-- An order of the same user that is active only if the old one was.
pub HasOneCart-replace :
    (os : List Order) (o o' : Order)
    → Unique (λ o. o.id) os
    → scalar (λ r. r.id == o.id) os ≡ some o
    → ((user_id : ℕ) → has_active_order user_id o' ≡ true → has_active_order user_id o ≡ true)
    → HasOneCart os
    → HasOneCart (update (λ r. r.id == o.id) (λ _. o') os)
HasOneCart-replace os o o' u e h c user_id = ground (
  arith,
  count-replace (λ o. o.id) (has_active_order user_id) o.id o o' os u e,
  c user_id,
  h user_id,
)

-- Carts are priced after a row is replaced, if its new form is and the other totals are the old.
pub IsPriced-replace :
    (ts ts' : List TicketInstance) (os : List Order) (k : ℕ) (o' : Order)
    → IsPriced ts' o'
    → ((j : ℕ) → j ≢ k → cart_total ts' j ≡ cart_total ts j)
    → All (IsPriced ts) os
    → All (IsPriced ts') (update (λ r. r.id == k) (λ _. o') os)
IsPriced-replace ts ts' os k o' p h =
    All-update (IsPriced ts) (IsPriced ts') (λ r. r.id == k) (λ _. o') os
      λ r priced. elim (Bool-cases (r.id == k)) [
        | inl hit ↦ rw hit p
        | inr miss ↦ rw miss λ counted. priced counted ∙ sym (h r.id (ground arith))
      ]

-- The total of the instance's order grows by its price, every other stays.
pub cart_total-append :
    (ts : List TicketInstance) (t : TicketInstance) (k : ℕ)
    → cart_total (ts ++ t ∷ []) k
      ≡ cart_total ts k + (if t.order_id == k then t.price_gross_snapshot else 0)
unfolding sum
cart_total-append ts t k =
    sum-append (λ t. t.order_id == k) (λ t. t.price_gross_snapshot) ts (t ∷ []) ∙ ground arith

free_seat :
    (ts : List TicketInstance) (t : TicketInstance) (e s : ℕ)
    → exists (same_seat t.event_id t.seat_id) ts ≡ false
    → same_seat e (some s) t ≡ true
    → exists (same_seat e (some s)) ts ≡ false
free_seat ts t e s free hit = elim (Option-cases t.seat_id) [
  | inl unseated ↦ absurd (ground arith)
  | inr (seat, seated) ↦
      let at_event : t.event_id ≡ e = ground arith in
      let at_seat : seat ≡ s = ground arith in
      subst (λ k. exists (same_seat k (some s)) ts ≡ false) at_event
        (subst (λ o. exists (same_seat t.event_id o) ts ≡ false) (seated ∙ ap some at_seat) free)
]

-- A free seat may be taken.
pub HasOneHolder-append :
    (ts : List TicketInstance) (t : TicketInstance)
    → exists (same_seat t.event_id t.seat_id) ts ≡ false
    → HasOneHolder ts
    → HasOneHolder (ts ++ t ∷ [])
unfolding count
HasOneHolder-append ts t free h e s =
    rw (count-append (same_seat e (some s)) ts (t ∷ []))
      (elim (Bool-cases (same_seat e (some s) t)) [
        | inl hit ↦
            rw hit
              (omega (arith, count-exists (same_seat e (some s)) ts (free_seat ts t e s free hit)))
        | inr miss ↦ rw miss (omega (arith, h e s))
      ])

pub HasOneHolder-delete :
    (ts : List TicketInstance) (q : TicketInstance → Bool)
    → HasOneHolder ts
    → HasOneHolder (delete q ts)
HasOneHolder-delete ts q h e s = omega (arith, h e s, count-delete-le (same_seat e (some s)) q ts)
