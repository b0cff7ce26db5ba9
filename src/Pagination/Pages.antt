-- ===== src/Pagination/Pages.antt =====
-- The number of pages, and which page is the last.
use ticketing_system.Prelude.{ℕ, ◌+◌, ◌-◌, ◌*◌, ◌≤◌, ◌<◌, ◌/◌, ◌≡◌, true, false, arith}
use native.Mathlib.Nat.{le-div_iff_mul-le}
use ticketing_system.Pagination.{Page, pages, has_next}

-- ceil(t / s), as the code computes it
abbrev ceil : ℕ → ℕ → ℕ
ceil t s = (t + s - 1) / s

lt_of_lt-ceil : (p t s : ℕ) → 0 < s → p + 1 ≤ ceil t s → p * s < t
lt_of_lt-ceil p t s h below = let m = (le-div_iff_mul-le h).0 below in grind (arith, m)

lt-ceil_of_lt : (p t s : ℕ) → 0 < s → p * s < t → p + 1 ≤ ceil t s
lt-ceil_of_lt p t s h below = (le-div_iff_mul-le h).1 (grind (arith, below))

module _ {ℓ} {A : Type ℓ} where
  -- Rows stand after a page exactly if it has a next one.
  pub lt_of_has_next :
      (p : Page A)
      → 0 < p.page_size
      → 1 ≤ p.page
      → has_next p ≡ true
      → p.page * p.page_size < p.total
  unfolding has_next pages
  lt_of_has_next p h o n = lt_of_lt-ceil p.page p.total p.page_size h (ground (arith, n, o, h))

  pub le_of_last :
      (p : Page A) → 0 < p.page_size → has_next p ≡ false → p.total ≤ p.page * p.page_size
  unfolding has_next pages
  le_of_last p h n = ground (arith, n, h, lt-ceil_of_lt p.page p.total p.page_size h)
