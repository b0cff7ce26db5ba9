-- ===== src/Table/Distinct.antt =====
-- Unique constraints: no two rows are the same in what `same` compares.
use ticketing_system.Prelude.{
  ℕ, ◌≡◌, refl, Bool, false, not, ◌&&◌, ◌||◌, List, [], ◌∷◌, ◌++◌, arith, ◌==◌, Bool-cases, inl,
  inr, subst, ==_iff,
}
use ticketing_system.Table.{exists, update, delete, Unique}

exists-delete_less {ℓ} :
    {A : Type ℓ} (p q : A → Bool) (rs : List A)
    → exists p rs ≡ false
    → exists p (delete q rs) ≡ false
unfolding exists delete
exists-delete_less p q [] h = h
exists-delete_less p q (x ∷ rs) h = ground (arith, h, exists-delete_less p q rs)

module _ {ℓ} {A : Type ℓ} (same : A → A → Bool) where
  abbrev pub AreDistinct : List A → Type 0
  AreDistinct [] = Unit
  AreDistinct (r ∷ rs) = (exists (λ s. same s r) rs ≡ false) × AreDistinct rs

  pub AreDistinct-delete : (q : A → Bool) (rs : List A) → AreDistinct rs → AreDistinct (delete q rs)
  unfolding delete
  AreDistinct-delete q [] d = tt
  AreDistinct-delete q (r ∷ rs) d = elim (Bool-cases (q r)) [
    | inl gone ↦ rw gone (AreDistinct-delete q rs d.1)
    | inr kept ↦ rw kept (exists-delete_less _ q rs d.0, AreDistinct-delete q rs d.1)
  ]

  module _ (symmetric : (a b : A) → same a b ≡ same b a) where
    exists-append_same :
        (x r : A) (rs : List A)
        → exists (λ s. same s x) (rs ++ r ∷ []) ≡ (exists (λ s. same s x) rs || same r x)
    unfolding exists
    exists-append_same x r [] = ground arith
    exists-append_same x r (s ∷ rs) = ground (arith, exists-append_same x r rs)

    -- An insertion that no row forbids.
    pub AreDistinct-append :
        (r : A) (rs : List A)
        → exists (λ s. same s r) rs ≡ false
        → AreDistinct rs
        → AreDistinct (rs ++ r ∷ [])
    unfolding exists
    AreDistinct-append r [] new d = (refl, tt)
    AreDistinct-append r (x ∷ rs) new d = (
      rw (exists-append_same x r rs, d.0, symmetric r x) (ground (arith, new)),
      AreDistinct-append r rs (ground (arith, new)) d.1,
    )

    module _ (key : A → ℕ) (r : A) where
      abbrev pub clashes : A → Bool
      clashes s = not (key s == key r) && same s r

      -- Below a row that clashes with nothing.
      exists-replaced :
          (x : A) (rs : List A)
          → exists (λ s. same s x) rs ≡ false
          → same r x ≡ false
          → exists (λ s. same s x) (update (λ s. key s == key r) (λ _. r) rs) ≡ false
      unfolding exists update
      exists-replaced x [] h other = refl
      exists-replaced x (s ∷ rs) h other = ground (arith, h, other, exists-replaced x rs)

      exists-clash :
          (rs : List A)
          → exists clashes rs ≡ false
          → exists (λ s. key s == key r) rs ≡ false
          → exists (λ s. same s r) rs ≡ false
      unfolding exists
      exists-clash [] h absent = refl
      exists-clash (s ∷ rs) h absent = ground (arith, h, absent, exists-clash rs)

      update_absent :
          (rs : List A)
          → exists (λ s. key s == key r) rs ≡ false
          → update (λ s. key s == key r) (λ _. r) rs ≡ rs
      unfolding exists update
      update_absent [] h = refl
      update_absent (s ∷ rs) h = ground (arith, h, update_absent rs)

      -- A new form of a row that clashes with no other row.
      pub AreDistinct-replace :
          (rs : List A)
          → Unique key rs
          → exists clashes rs ≡ false
          → AreDistinct rs
          → AreDistinct (update (λ s. key s == key r) (λ _. r) rs)
      unfolding update exists
      AreDistinct-replace [] u free d = tt
      AreDistinct-replace (x ∷ rs) u free d = elim (Bool-cases (key x == key r)) [
        | inl hit ↦
            let none_left =
              subst (λ k. exists (λ s. key s == k) rs ≡ false) ((==_iff (key x) (key r)).0 hit)
                u.0 in
            rw (hit, update_absent rs none_left)
              (exists-clash rs (ground (arith, free)) none_left, d.1)
        | inr miss ↦
            let other : same r x ≡ false = rw (symmetric r x) (ground (arith, free, miss)) in
            rw miss (
              exists-replaced x rs d.0 other,
              AreDistinct-replace rs u.1 (ground (arith, free)) d.1,
            )
      ]
