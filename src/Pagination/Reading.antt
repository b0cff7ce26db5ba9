-- ===== src/Pagination/Reading.antt =====
-- A client that asks for one page after the other while there is a next one.
use ticketing_system.Prelude.{
  ℕ, zero, suc, ◌+◌, ◌*◌, ◌≤◌, ◌<◌, ◌≡◌, refl, Bool, true, false, ◌&&◌, List, ◌++◌, Option, none,
  some, map, arith, if◌then◌else◌, length, take, drop, Bool-cases, inl, inr, ◌∙◌, ap,
}
use mathlib.Core.Option
use mathlib.Core.List.{map-append}
use ticketing_system.Table.{select, count, Unique}
use ticketing_system.Table.Laws.{count_ext}
use ticketing_system.Pagination.{
  Page, pages, has_next, holds_all, ordered, count_distinct, clamp_page, clamp_page_size, paginate,
  page_of,
}
use ticketing_system.Pagination.Pages.{lt_of_has_next, le_of_last}
use ticketing_system.Pagination.Rows.{
  take-drop, drop-drop, take_all, length-drop, Unique-order_by, Unique-select,
  count_distinct-length, count-order_by, count-select, length-count,
}

module _ {ℓ} {A : Type ℓ} where
  -- The items of the pages from `page` on; none if `fuel` requests were not enough.
  pub read_from : (ℕ → Page A) → ℕ → ℕ → Option (List A)
  read_from fetch zero page = none
  read_from fetch (suc fuel) page =
      let rest =
        Option.map (λ items. (fetch page).items ++ items) (read_from fetch fuel (page + 1)) in
      if has_next (fetch page) then rest else some (fetch page).items

module _ {ℓ κ} {A : Type ℓ} {B : Type κ} (before : A → A → Bool) (count_by : A → ℕ)
    (filters : List (A → Bool)) (rows : List A) (f : A → B) (size : ℕ) where
  -- What a listing answers for a page.
  abbrev pub fetch : ℕ → Page B
  fetch page = page_of f (paginate before count_by filters page size rows) page size

  abbrev found : List A
  found = ordered before filters rows

  total-found : Unique count_by rows → count_distinct count_by found ≡ length found
  unfolding ordered
  total-found u =
      count_distinct-length count_by found
        (Unique-order_by count_by before _ (Unique-select count_by (holds_all filters) rows u))

  module _ (unique : Unique count_by rows) (low : 1 ≤ size) (high : size ≤ 200) where
    total_lem : (page : ℕ) → (fetch page).total ≡ length found
    unfolding page_of paginate
    total_lem page = total-found unique

    page_lem : (page : ℕ) → ((fetch page).page ≡ page) × ((fetch page).page_size ≡ size)
    unfolding page_of
    page_lem page = (refl, refl)

    size_lem : clamp_page_size size ≡ size
    unfolding clamp_page_size
    size_lem = omega arith

    items_lem : (p : ℕ) → (fetch (suc p)).items ≡ map f (take size (drop (p * size) found))
    unfolding page_of paginate clamp_page
    items_lem p = rw size_lem (ap (λ k. map f (take size (drop (k * size) found))) (omega arith))

    more_after : (p : ℕ) → has_next (fetch (suc p)) ≡ true → suc p * size < length found
    unfolding page_of
    more_after p more =
        rw (← total_lem (suc p)) (lt_of_has_next (fetch (suc p)) (omega arith) (omega arith) more)

    last_after : (p : ℕ) → has_next (fetch (suc p)) ≡ false → length found ≤ suc p * size
    unfolding page_of
    last_after p last = rw (← total_lem (suc p)) (le_of_last (fetch (suc p)) (omega arith) last)

    -- A page and what stands after it.
    split_page :
        (p : ℕ)
        → (fetch (suc p)).items ++ map f (drop (suc p * size) found) ≡ map f (drop (p * size) found)
    split_page p =
        let next_start : p * size + size ≡ suc p * size = grind arith in
        rw
          (
            items_lem p,
            ← next_start,
            ← drop-drop (p * size) size found,
            ← map-append f (take size (drop (p * size) found)) (drop size (drop (p * size) found)),
            take-drop size (drop (p * size) found),
          )
          refl

    last_page :
        (p : ℕ)
        → length found ≤ suc p * size
        → (fetch (suc p)).items ≡ map f (drop (p * size) found)
    last_page p all =
        items_lem p
        ∙ ap (map f) (
            take_all size (drop (p * size) found)
              (rw (length-drop (p * size) found) (grind (arith, all))))

    read_from_lem :
        (fuel p : ℕ)
        → 0 < fuel
        → length found ≤ (p + fuel) * size
        → read_from fetch fuel (suc p) ≡ some (map f (drop (p * size) found))
    unfolding read_from
    read_from_lem zero p h enough = absurd (omega arith)
    read_from_lem (suc fuel) p h enough = elim (Bool-cases (has_next (fetch (suc p)))) [
      | inl more ↦
          let left = more_after p more in
          let some_fuel : 0 < fuel = grind (arith, left, enough) in
          let next : suc p + 1 ≡ suc (suc p) = omega arith in
          rw (more, next, read_from_lem fuel (suc p) some_fuel (grind (arith, enough)))
            (ap some (split_page p))
      | inr last ↦ rw last (ap some (last_page p (last_after p last)))
    ]

    pages_pos : 0 < pages (fetch 1)
    unfolding pages
    pages_pos = ground arith

    pages_enough : length found ≤ pages (fetch 1) * size
    unfolding pages has_next page_of
    pages_enough =
        rw (← total_lem 1)
          (le_of_last (record (fetch 1) { page = pages (fetch 1) }) (omega arith) (ground arith))

    -- A client that follows has_next, for a page size from 1 to 200 and a key that names one row at
    -- most, stops after as many requests as the first page says there are pages; it has then read the
    -- ordered rows of the query, and whatever property is counted, they are as many as in the table.
    pub read_from_complete :
        (read_from fetch (pages (fetch 1)) 1 ≡ some (map f (ordered before filters rows)))
        × ((q : A → Bool)
            → count q (ordered before filters rows) ≡ count (λ r. holds_all filters r && q r) rows)
    unfolding ordered
    read_from_complete = (
      read_from_lem (pages (fetch 1)) 0 pages_pos (omega (arith, pages_enough))
          ∙ (let start : 0 * size ≡ 0 = omega arith in
              ap (λ (k : ℕ). some (map f (drop k found))) start),
      λ q.
          count-order_by q before (select (holds_all filters) rows)
          ∙ count-select q (holds_all filters) rows,
    )

    -- Under the same conditions every page reports the number of rows that the query matches.
    pub total-count : (page : ℕ) → (fetch page).total ≡ count (holds_all filters) rows
    unfolding ordered
    total-count page =
        total_lem page
        ∙ length-count found
        ∙ count-order_by (λ _. true) before (select (holds_all filters) rows)
        ∙ count-select (λ _. true) (holds_all filters) rows
        ∙ count_ext _ (holds_all filters) rows (λ r. ground arith)
