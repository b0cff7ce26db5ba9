-- ===== src/Pagination/Rows.antt =====
-- The parts of a list that pages show, and what ordering and filtering leave of keys and counts.
use ticketing_system.Prelude.{
  ℕ, zero, suc, ◌+◌, ◌-◌, ◌≤◌, ◌≡◌, refl, Bool, true, false, ◌&&◌, ◌||◌, List, [], ◌∷◌, ◌++◌, arith,
  ◌==◌, if◌then◌else◌, length, take, drop, Bool-cases, inl, inr, sym, ◌∙◌, ap,
}
use ticketing_system.Table.{exists, select, count, Unique}
use ticketing_system.Pagination.{place, order_by, count_distinct}

module _ {ℓ} {A : Type ℓ} where
  pub take-drop : (n : ℕ) (xs : List A) → take n xs ++ drop n xs ≡ xs
  take-drop zero xs = refl
  take-drop (suc n) [] = refl
  take-drop (suc n) (x ∷ xs) = ap (λ r. x ∷ r) (take-drop n xs)

  pub drop-nil : (n : ℕ) → ◌≡◌ {A = List A} (drop n []) []
  drop-nil zero = refl
  drop-nil (suc n) = refl

  pub drop-drop : (m n : ℕ) (xs : List A) → drop n (drop m xs) ≡ drop (m + n) xs
  drop-drop zero n xs = ap (λ k. drop k xs) (omega arith)
  drop-drop (suc m) n [] = drop-nil n ∙ sym (drop-nil (suc m + n))
  drop-drop (suc m) n (x ∷ xs) =
      let e : suc (m + n) ≡ suc m + n = omega arith in
      drop-drop m n xs ∙ ap (λ (k : ℕ). drop k (x ∷ xs)) e

  pub take_all : (n : ℕ) (xs : List A) → length xs ≤ n → take n xs ≡ xs
  take_all zero [] h = refl
  take_all zero (x ∷ xs) h = absurd (omega arith)
  take_all (suc n) [] h = refl
  take_all (suc n) (x ∷ xs) h = ap (λ r. x ∷ r) (take_all n xs (omega arith))

  pub length-drop : (n : ℕ) (xs : List A) → length (drop n xs) ≡ length xs - n
  length-drop zero xs = omega arith
  length-drop (suc n) [] = omega arith
  length-drop (suc n) (x ∷ xs) = omega (arith, length-drop n xs)

  pub exists-place :
      (p : A → Bool) (before : A → A → Bool) (r : A) (rs : List A)
      → exists p (place before r rs) ≡ (p r || exists p rs)
  unfolding exists place
  exists-place p before r [] = refl
  exists-place p before r (s ∷ rs) = ground (arith, exists-place p before r rs)

  pub exists-order_by :
      (p : A → Bool) (before : A → A → Bool) (rs : List A)
      → exists p (order_by before rs) ≡ exists p rs
  unfolding exists order_by
  exists-order_by p before [] = refl
  exists-order_by p before (r ∷ rs) =
      rw (exists-place p before r (order_by before rs), exists-order_by p before rs) refl

  Unique-place :
      (key : A → ℕ) (before : A → A → Bool) (r : A) (rs : List A)
      → Unique key rs
      → exists (λ s. key s == key r) rs ≡ false
      → Unique key (place before r rs)
  unfolding place exists
  Unique-place key before r [] u new = (refl, tt)
  Unique-place key before r (s ∷ rs) u new = elim (Bool-cases (before r s)) [
    | inl first ↦ rw first (new, u)
    | inr later ↦ rw later (
      rw (exists-place (λ x. key x == key s) before r rs) (ground (arith, new, u.0)),
      Unique-place key before r rs u.1 (ground (arith, new)),
    )
  ]

  pub Unique-order_by :
      (key : A → ℕ) (before : A → A → Bool) (rs : List A)
      → Unique key rs
      → Unique key (order_by before rs)
  unfolding order_by
  Unique-order_by key before [] u = tt
  Unique-order_by key before (r ∷ rs) u =
      Unique-place key before r (order_by before rs) (Unique-order_by key before rs u.1)
        (exists-order_by _ before rs ∙ u.0)

  exists-select :
      (p q : A → Bool) (rs : List A) → exists p rs ≡ false → exists p (select q rs) ≡ false
  unfolding exists select
  exists-select p q [] h = refl
  exists-select p q (r ∷ rs) h = ground (arith, h, exists-select p q rs)

  pub Unique-select :
      (key : A → ℕ) (q : A → Bool) (rs : List A) → Unique key rs → Unique key (select q rs)
  unfolding select
  Unique-select key q [] u = tt
  Unique-select key q (r ∷ rs) u = elim (Bool-cases (q r)) [
    | inl hit ↦ rw hit (exists-select _ q rs u.0, Unique-select key q rs u.1)
    | inr miss ↦ rw miss (Unique-select key q rs u.1)
  ]

  pub count_distinct-length :
      (key : A → ℕ) (rs : List A) → Unique key rs → count_distinct key rs ≡ length rs
  unfolding count_distinct
  count_distinct-length key [] u = refl
  count_distinct-length key (r ∷ rs) u = rw (u.0) (omega (arith, count_distinct-length key rs u.1))

  count-place :
      (q : A → Bool) (before : A → A → Bool) (r : A) (rs : List A)
      → count q (place before r rs) ≡ (if q r then 1 else 0) + count q rs
  unfolding count place
  count-place q before r [] = refl
  count-place q before r (s ∷ rs) = ground (arith, count-place q before r rs)

  pub count-order_by :
      (q : A → Bool) (before : A → A → Bool) (rs : List A)
      → count q (order_by before rs) ≡ count q rs
  unfolding count order_by
  count-order_by q before [] = refl
  count-order_by q before (r ∷ rs) =
      rw (count-place q before r (order_by before rs), count-order_by q before rs) refl

  pub count-select :
      (q p : A → Bool) (rs : List A) → count q (select p rs) ≡ count (λ r. p r && q r) rs
  unfolding count select
  count-select q p [] = refl
  count-select q p (r ∷ rs) = ground (arith, count-select q p rs)

  pub length-count : (rs : List A) → length rs ≡ count (λ _. true) rs
  unfolding count
  length-count [] = refl
  length-count (r ∷ rs) = omega (arith, length-count rs)
