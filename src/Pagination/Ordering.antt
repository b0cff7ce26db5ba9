-- ===== src/Pagination/Ordering.antt =====
-- The rows of a page and of an ordered query are rows of the table.
use ticketing_system.Prelude.{
  ℕ, zero, suc, ◌+◌, ◌≡◌, refl, Bool, true, List, [], ◌∷◌, arith, if◌then◌else◌, All, Bool-cases,
  inl, inr, map, drop, take, All-mapped,
}
use ticketing_system.Table.{sum, select}
use ticketing_system.Table.Laws.{All-take, All-select, All-map}
use ticketing_system.Pagination.{
  order_by, place, ordered, paginate, page_of, holds_all, clamp_page_size,
}

module _ {ℓ} {A : Type ℓ} where
  sum-place :
      (p : A → Bool) (v : A → ℕ) (before : A → A → Bool) (r : A) (rs : List A)
      → sum p v (place before r rs) ≡ (if p r then v r else 0) + sum p v rs
  unfolding sum place
  sum-place p v before r [] = refl
  sum-place p v before r (s ∷ rs) = ground (arith, sum-place p v before r rs)

  pub sum-order_by :
      (p : A → Bool) (v : A → ℕ) (before : A → A → Bool) (rs : List A)
      → sum p v (order_by before rs) ≡ sum p v rs
  unfolding sum order_by
  sum-order_by p v before [] = refl
  sum-order_by p v before (r ∷ rs) =
      rw (sum-place p v before r (order_by before rs), sum-order_by p v before rs) refl

  module _ {κ} (P : A → Type κ) where
    All-place :
        (before : A → A → Bool) (r : A) (rs : List A) → P r → All P rs → All P (place before r rs)
    unfolding place
    All-place before r [] h a = (h, tt)
    All-place before r (s ∷ rs) h a = elim (Bool-cases (before r s)) [
      | inl first ↦ rw first (h, a)
      | inr later ↦ rw later (a.0, All-place before r rs h a.1)
    ]

    pub All-order_by : (before : A → A → Bool) (rs : List A) → All P rs → All P (order_by before rs)
    unfolding order_by
    All-order_by before [] a = tt
    All-order_by before (r ∷ rs) a =
        All-place before r (order_by before rs) a.0 (All-order_by before rs a.1)

    All-drop : (n : ℕ) (rs : List A) → All P rs → All P (drop n rs)
    All-drop zero rs a = a
    All-drop (suc n) [] a = tt
    All-drop (suc n) (r ∷ rs) a = All-drop n rs a.1

  map_same : (rs : List A) → map (λ r. r) rs ≡ rs
  map_same [] = refl
  map_same (r ∷ rs) = rw (map_same rs) refl

  -- A listed row is a row of the table that fits every filter.
  pub page-All {κ} :
      (P : A → Type κ) (before : A → A → Bool) (key : A → ℕ) (filters : List (A → Bool))
      (page page_size : ℕ) (rows : List A)
      → All P rows
      → All
          (λ r. P r × (holds_all filters r ≡ true))
          (page_of (λ r. r) (paginate before key filters page page_size rows) page page_size).items
  unfolding page_of paginate ordered
  page-All P before key filters page page_size rows a =
      rw
        (map_same (
          take (clamp_page_size page_size)
            (drop _ (order_by before (select (holds_all filters) rows)))))
        (All-take _ _ _
          (All-drop _ _ _ (All-order_by _ before _ (All-select P (holds_all filters) rows a))))

-- What a listing shows is made of rows of the table that fit every filter.
pub page-All_map {ℓ κ μ} :
    {A : Type ℓ} {B : Type μ} (P : A → Type κ) (f : A → B) (before : A → A → Bool) (key : A → ℕ)
    (filters : List (A → Bool)) (page page_size : ℕ) (rows : List A)
    → All P rows
    → All
        (λ b. (r : A) × (b ≡ f r) × P r × (holds_all filters r ≡ true))
        (page_of f (paginate before key filters page page_size rows) page page_size).items
unfolding page_of
page-All_map P f before key filters page page_size rows a =
    rw (← map_same (paginate before key filters page page_size rows).0) (
      All-mapped _ f _ (
        All-map _ _ _ (λ r h. (r, refl, h.0, h.1))
          (page-All P before key filters page page_size rows a)))
