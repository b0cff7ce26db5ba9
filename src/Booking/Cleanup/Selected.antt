-- ===== src/Booking/Cleanup/Selected.antt =====
-- The orders that a clean-up selects.
use ticketing_system.Prelude.{
  ℕ, ◌≡◌, true, false, List, ◌++◌, map, some, arith, ◌==◌, All, All-mapped, take, subst, Bool,
}
use ticketing_system.Table.{scalar, select, Unique}
use ticketing_system.Table.Laws.{All-map, All-select, All-take, All-append}
use ticketing_system.Table.Replace.{Unique-scalar}
use ticketing_system.Schema.{Database, Order, OrderStatus}
use ticketing_system.Booking.Cleanup.{is_expired, pending_ids, awaiting_ids}
use ticketing_system.Invariants.Purchases.{is_completed}

-- The order of this key is not completed.
abbrev pub IsOpen : List Order → ℕ → Type 0
IsOpen os i = (o : Order) → scalar (λ r. r.id == i) os ≡ some o → is_completed o ≡ false

same_row :
    (os : List Order) (i : ℕ) (o r : Order)
    → scalar (λ r. r.id == i) os ≡ some o
    → scalar (λ r. r.id == i) os ≡ some r
    → o ≡ r
same_row os i o r h e = cc

-- Rows that are picked because they are not completed.
picked-IsOpen :
    (os : List Order) (n : ℕ) (q : Order → Bool)
    → Unique (λ o. o.id) os
    → ((o : Order) → q o ≡ true → is_completed o ≡ false)
    → All (IsOpen os) (map (λ o. o.id) (take n (select q os)))
picked-IsOpen os n q u h =
    All-mapped (IsOpen os) (λ o. o.id) (take n (select q os))
      (All-map _ _ (take n (select q os))
        (λ r p o e. subst (λ d. is_completed d ≡ false) (same_row os r.id r o p.0 e) (h r p.1))
        (All-take _ n (select q os) (All-select _ q os (Unique-scalar (λ o. o.id) os u))))

pub ids-IsOpen :
    (db : Database) (now n m : ℕ)
    → Unique (λ o. o.id) db.orders
    → All (IsOpen db.orders) (pending_ids db now n ++ awaiting_ids db now m)
unfolding pending_ids awaiting_ids
ids-IsOpen db now n m u =
    All-append (IsOpen db.orders) (pending_ids db now n) (awaiting_ids db now m)
      (picked-IsOpen db.orders n (is_expired now OrderStatus.pending) u (λ o h. ground arith))
      (picked-IsOpen db.orders m _ u (λ o h. ground arith))
