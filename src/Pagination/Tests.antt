-- ===== src/Pagination/Tests.antt =====
-- Seven numbers in pages of three.
use ticketing_system.Prelude.{
  ℕ, ◌≡◌, refl, Bool, List, [], ◌∷◌, some, arith, ltb, leb, ◌&&◌, map, ◌+◌,
}
use ticketing_system.Table.{exists, count, select}
use ticketing_system.Pagination.{paginate, ordered, pages, holds_all}
use ticketing_system.Pagination.Reading.{read_from, fetch, read_from_complete}

abbrev numbers : List ℕ
numbers = 4 ∷ 1 ∷ 7 ∷ 3 ∷ 9 ∷ 2 ∷ 8 ∷ []

abbrev above_one : List (ℕ → Bool)
above_one = (λ n. ltb 1 n) ∷ []

second_page : paginate leb (λ n. n) above_one 2 4 numbers ≡ (8 ∷ 9 ∷ [], 6)
unfolding paginate select exists
second_page = refl

read_from_complete_example :
    (read_from
        (fetch leb (λ n. n) above_one numbers (λ n. n + 1) 4)
        (pages (fetch leb (λ n. n) above_one numbers (λ n. n + 1) 4 1))
        1
      ≡ some (map (λ n. n + 1) (ordered leb above_one numbers)))
    × ((q : ℕ → Bool)
        → count q (ordered leb above_one numbers)
          ≡ count (λ n. holds_all above_one n && q n) numbers)
unfolding exists
read_from_complete_example =
    read_from_complete leb (λ n. n) above_one numbers (λ n. n + 1) 4
      (refl, (refl, (refl, (refl, (refl, (refl, (refl, tt))))))) (omega arith) (omega arith)
