-- ===== src/Requests/Tests.antt =====
-- A small deployment to run requests on, and the theorems at work on it.
use ticketing_system.Prelude.{◌+◌, ◌≤◌, ◌≡◌, refl, true, false, [], ◌∷◌, List}
use ticketing_system.Table.{scalar, exists}
use ticketing_system.Requests.{
  Request, reserves, checks_out, starts_payment, finalizes_payment, cleans_up, Environment, run,
}
use ticketing_system.Requests.History.{run-IsConsistent, run_never_oversells}
use ticketing_system.Schema.{OrderStatus}
use ticketing_system.Requests.Kept.{run-Purchases}
use ticketing_system.Invariants.Purchases.{Purchases}
use ticketing_system.Samples.{
  with_order_of, with_order_of-IsConsistent, start, floor_booking, start-IsConsistent,
}
use ticketing_system.Invariants.{IsConsistent, left, sold, stock}

abbrev env : Environment
env = record { nullifies = false; code = λ _. "code"; fiscal_year = λ _. 2025 }

-- User 7 buys one ticket of the floor, user 8 lets one expire.
abbrev day : List Request
day =
    reserves (floor_booking 7)
    ∷ reserves (floor_booking 8)
    ∷ checks_out 7 210 211
    ∷ starts_payment 7 1 77 220
    ∷ finalizes_payment 7 1 true 230
    ∷ cleans_up 99000000000 500
    ∷ []

run-IsConsistent_example : IsConsistent (run env start day)
run-IsConsistent_example = run-IsConsistent env start day start-IsConsistent

run_never_oversells_example :
    (left (run env start day) 5 + sold (run env start day) 5 ≡ stock start 5)
    × (sold (run env start day) 5 ≤ stock start 5)
unfolding scalar exists
run_never_oversells_example = run_never_oversells env start day 5 start-IsConsistent refl

run-Purchases_example :
    Purchases
      (with_order_of OrderStatus.completed)
      (run env (with_order_of OrderStatus.completed) day)
run-Purchases_example =
    run-Purchases env (with_order_of OrderStatus.completed) day
      (with_order_of-IsConsistent OrderStatus.completed)
