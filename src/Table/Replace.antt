-- ===== src/Table/Replace.antt =====
-- Rows found and replaced by their key.
use ticketing_system.Prelude.{
  ℕ, ◌≡◌, refl, Bool, true, false, ◌&&◌, List, [], ◌∷◌, none, some, arith, ◌==◌, if◌then◌else◌, All,
  Bool-cases, inl, inr, ==_refl,
}
use ticketing_system.Table.{scalar, exists, count, update, Unique}
use ticketing_system.Table.Laws.{count-exists, All-map, All-both, exists-All}
use ticketing_system.Table.Keys.{has_key, absent, exists_and, exists_found}

module _ {ℓ} {A : Type ℓ} (key : A → ℕ) where
  -- A row that fits p takes the place of one that does not.
  pub scalar-replace :
      (p : A → Bool) (k : ℕ) (r s : A) (rs : List A)
      → scalar (has_key key k) rs ≡ some r
      → scalar p rs ≡ none
      → p s ≡ true
      → scalar p (update (has_key key k) (λ _. s) rs) ≡ some s
  unfolding scalar update
  scalar-replace p k r s [] found missing fits = absurd (ground (arith, found))
  scalar-replace p k r s (x ∷ rs) found missing fits = elim (Bool-cases (key x == k)) [
    | inl hit ↦ rw (hit, fits) refl
    | inr miss ↦ rw miss (elim (Bool-cases (p x)) [
      | inl e ↦ absurd (ground (arith, missing, e))
      | inr e ↦ rw e (
          scalar-replace p k r s rs (ground (arith, found, miss)) (ground (arith, missing, e)) fits)
    ])
  ]

  -- Replacing a row leaves the others.
  pub scalar-replace_other :
      (j k : ℕ) (s : A) (rs : List A)
      → key s ≡ j
      → (j == k) ≡ false
      → scalar (has_key key k) (update (has_key key j) (λ _. s) rs) ≡ scalar (has_key key k) rs
  unfolding scalar update
  scalar-replace_other j k s [] e other = refl
  scalar-replace_other j k s (x ∷ rs) e other = elim (Bool-cases (key x == j)) [
    | inl hit ↦
        let s_other : (key s == k) ≡ false = ground arith in
        let x_other : (key x == k) ≡ false = ground arith in
        rw (hit, s_other, x_other) (scalar-replace_other j k s rs e other)
    | inr miss ↦ rw (miss, scalar-replace_other j k s rs e other) refl
  ]

  -- The replaced row is the one its key names.
  pub scalar-replaced :
      (k : ℕ) (r s : A) (rs : List A)
      → scalar (has_key key k) rs ≡ some r
      → key s ≡ k
      → scalar (has_key key k) (update (has_key key k) (λ _. s) rs) ≡ some s
  unfolding scalar update
  scalar-replaced k r s [] found e = absurd (ground (arith, found))
  scalar-replaced k r s (x ∷ rs) found e = elim (Bool-cases (key x == k)) [
    | inl hit ↦ let s_hit : (key s == k) ≡ true = ground arith in rw (hit, s_hit) refl
    | inr miss ↦ rw (miss, miss) (scalar-replaced k r s rs (ground (arith, found, miss)) e)
  ]

  pub count-key :
      (k : ℕ) (q : A → Bool) (r : A) (rs : List A)
      → Unique key rs
      → scalar (has_key key k) rs ≡ some r
      → count (λ s. key s == k && q s) rs ≡ (if q r then 1 else 0)
  unfolding scalar count
  count-key k q r [] u found = absurd (ground (arith, found))
  count-key k q r (x ∷ rs) u found = elim (Bool-cases (key x == k)) [
    | inl hit ↦
        let same : x ≡ r = ground (arith, found, hit) in
        let rest =
          count-exists _ rs (exists_and key (has_key key k) q rs (absent key k x rs u hit)) in
        rw (hit, rest, same) (omega arith)
    | inr miss ↦ rw (miss, count-key k q r rs u.1 (ground (arith, found, miss))) (omega arith)
  ]

  -- Every row is the one that its key names.
  pub Unique-scalar :
      (rs : List A) → Unique key rs → All (λ r. scalar (has_key key (key r)) rs ≡ some r) rs
  unfolding scalar
  Unique-scalar [] u = tt
  Unique-scalar (x ∷ rs) u = (
    rw ==_refl refl,
    All-map _ _ rs
        (λ r h. let other : (key x == key r) ≡ false = ground (arith, h.1) in rw other h.0)
        (All-both _ _ rs (Unique-scalar rs u.1) (exists-All (has_key key (key x)) rs u.0)),
  )

  exists-replace_none :
      (q : A → Bool) (k : ℕ) (s : A) (rs : List A)
      → q s ≡ false
      → exists q (update (has_key key k) (λ _. s) rs) ≡ true
      → exists q rs ≡ true
  unfolding exists update
  exists-replace_none q k s [] none_new e = e
  exists-replace_none q k s (x ∷ rs) none_new e = elim (Bool-cases (key x == k)) [
    | inl hit ↦ ground (arith, exists-replace_none q k s rs none_new, e, hit)
    | inr miss ↦ ground (arith, exists-replace_none q k s rs none_new, e, miss)
  ]

  -- A row that fits q only if the old one did adds no row that fits.
  pub exists-replace :
      (q : A → Bool) (k : ℕ) (r s : A) (rs : List A)
      → scalar (has_key key k) rs ≡ some r
      → (q s ≡ true → q r ≡ true)
      → exists q (update (has_key key k) (λ _. s) rs) ≡ true
      → exists q rs ≡ true
  exists-replace q k r s rs found fits e = elim (Bool-cases (q s)) [
    | inl hit ↦ exists_found key (has_key key k) q rs r found (fits hit)
    | inr miss ↦ exists-replace_none q k s rs miss e
  ]
