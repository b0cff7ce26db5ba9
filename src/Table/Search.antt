-- ===== src/Table/Search.antt =====
-- A row that is looked up by its key and under further conditions.
use ticketing_system.Prelude.{
  ℕ, ◌≡◌, refl, Bool, true, false, ◌&&◌, List, [], ◌∷◌, none, some, arith, ◌==◌, Bool-cases, inl,
  inr, ap, ◌∙◌,
}
use ticketing_system.Table.{scalar, exists, select, count, sum, Unique}
use ticketing_system.Table.Replace.{count-key}

module _ {ℓ} {A : Type ℓ} where
  pub scalar_found :
      (p : A → Bool) (rs : List A) → exists p rs ≡ true → (r : A) × (scalar p rs ≡ some r)
  unfolding scalar exists
  scalar_found p [] h = cc
  scalar_found p (r ∷ rs) h = elim (Bool-cases (p r)) [
    | inl hit ↦ rw hit (r, refl)
    | inr miss ↦ rw miss (scalar_found p rs (ground (arith, miss)))
  ]

  -- A row that is found is found under any further condition that it meets.
  pub scalar_narrow :
      (p q : A → Bool) (rs : List A) (i : A)
      → scalar p rs ≡ some i
      → q i ≡ true
      → scalar (λ r. p r && q r) rs ≡ some i
  unfolding scalar
  scalar_narrow p q [] i e h = e
  scalar_narrow p q (r ∷ rs) i e h = elim (Bool-cases (p r)) [
    | inl hit ↦
        let same : r ≡ i = ground (arith, hit, e) in
        let fits : q r ≡ true = ap q same ∙ h in rw (hit, fits) (ap some same)
    | inr miss ↦ rw miss (scalar_narrow p q rs i (ground (arith, miss, e)) h)
  ]

  scalar-count_zero : (p : A → Bool) (rs : List A) → count p rs ≡ 0 → scalar p rs ≡ none
  unfolding scalar count
  scalar-count_zero p [] h = refl
  scalar-count_zero p (r ∷ rs) h = ground (arith, h, scalar-count_zero p rs)

  -- The only row of a key is not found under a condition that it misses.
  pub scalar_refused :
      (key : A → ℕ) (k : ℕ) (q : A → Bool) (rs : List A) (i : A)
      → Unique key rs
      → scalar (λ r. key r == k) rs ≡ some i
      → q i ≡ false
      → scalar (λ r. key r == k && q r) rs ≡ none
  scalar_refused key k q rs i u e h =
      scalar-count_zero _ rs (rw (count-key key k q i rs u e, h) refl)

  pub sum-select :
      (p : A → Bool) (v : A → ℕ) (rs : List A) → sum (λ _. true) v (select p rs) ≡ sum p v rs
  unfolding sum select
  sum-select p v [] = refl
  sum-select p v (r ∷ rs) = ground (arith, sum-select p v rs)
