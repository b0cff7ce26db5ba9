-- ===== src/Pagination.antt =====
-- app/core/pagination.py: one page of the rows of a query. No caller uses `distinct_on`; every caller
-- names the key that is counted.
pub mod Pages
pub mod Ordering
pub mod Rows
pub mod Reading
mod Tests
use ticketing_system.Prelude.{
  ℕ, suc, zero, ◌+◌, ◌-◌, ◌*◌, ◌/◌, Bool, true, not, ◌&&◌, List, [], ◌∷◌, min, max, ltb, leb, ◌==◌,
  if◌then◌else◌, length, take, drop, Option, none, some, map,
}
use ticketing_system.Table.{exists, select}

-- PageDTO
pub record Page {ℓ} (A : Type ℓ) : Type ℓ where
  pub items : List A
  pub total : ℕ
  pub page : ℕ
  pub page_size : ℕ

pub clamp_page : ℕ → ℕ
clamp_page page = max 1 page

pub clamp_page_size : ℕ → ℕ
clamp_page_size page_size = max 1 (min 200 page_size)

module _ {ℓ} {A : Type ℓ} where
  pub pages : Page A → ℕ
  pages p = if leb p.page_size 0 then 1 else max 1 ((p.total + p.page_size - 1) / p.page_size)

  pub has_next : Page A → Bool
  unfolding pages
  has_next p = ltb p.page (pages p)

  -- stmt.where(*where)
  abbrev pub holds_all : List (A → Bool) → A → Bool
  holds_all [] r = true
  holds_all (w ∷ ws) r = w r && holds_all ws r

  -- ORDER BY: `before a b` says that the row a does not come after b.
  pub place : (A → A → Bool) → A → List A → List A
  place before r [] = r ∷ []
  place before r (s ∷ rs) = if before r s then r ∷ s ∷ rs else s ∷ place before r rs

  pub order_by : (A → A → Bool) → List A → List A
  unfolding place
  order_by before [] = []
  order_by before (r ∷ rs) = place before r (order_by before rs)

  -- select(func.count()) of the distinct values of count_by
  pub count_distinct : (A → ℕ) → List A → ℕ
  count_distinct key [] = 0
  count_distinct key (r ∷ rs) =
      (if exists (λ s. key s == key r) rs then 0 else 1) + count_distinct key rs

  -- The rows that a query matches, in its order.
  pub ordered : (A → A → Bool) → List (A → Bool) → List A → List A
  unfolding order_by
  ordered before filters rows = order_by before (select (holds_all filters) rows)

  pub paginate : (A → A → Bool) → (A → ℕ) → List (A → Bool) → ℕ → ℕ → List A → List A × ℕ
  unfolding ordered count_distinct clamp_page clamp_page_size
  paginate before count_by filters page page_size rows =
      let found = ordered before filters rows in
      let size = clamp_page_size page_size in
      (take size (drop ((clamp_page page - 1) * size) found), count_distinct count_by found)

-- PageDTO(items, total, page=query.page, page_size=query.page_size), each row by `f`
pub page_of {ℓ κ} : {A : Type ℓ} {B : Type κ} → (A → B) → List A × ℕ → ℕ → ℕ → Page B
page_of f (rows, total) page page_size = record {
  items = map f rows;
  total = total;
  page = page;
  page_size = page_size;
}
