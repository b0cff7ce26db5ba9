-- ===== src/Table/Keys.antt =====
-- Tables whose primary key names at most one row.
use ticketing_system.Prelude.{
  ℕ, ◌+◌, ◌<◌, ◌≡◌, refl, Bool, true, false, ◌&&◌, ◌||◌, List, [], ◌∷◌, ◌++◌, some, arith, ◌==◌,
  if◌then◌else◌, All, Bool-cases, inl, inr, subst, ap, ==_iff, ==_refl,
}
use ticketing_system.Table.{scalar, exists, count, sum, update, delete, rewrite_row, Unique}

module _ {ℓ} {A : Type ℓ} (key : A → ℕ) where
  abbrev pub has_key : ℕ → A → Bool
  has_key k r = key r == k

  -- A key above all the others is new.
  pub exists_fresh : (k : ℕ) (rs : List A) → All (λ r. key r < k) rs → exists (has_key k) rs ≡ false
  unfolding exists
  exists_fresh k [] h = refl
  exists_fresh k (x ∷ rs) h = ground (arith, exists_fresh k rs h.1, h.0)

  exists-append_one :
      (k : ℕ) (rs : List A) (r : A)
      → exists (has_key k) (rs ++ r ∷ []) ≡ (exists (has_key k) rs || key r == k)
  unfolding exists
  exists-append_one k [] r = ground arith
  exists-append_one k (x ∷ rs) r = ground (arith, exists-append_one k rs r)

  pub Unique-append_one :
      (rs : List A) (r : A)
      → Unique key rs
      → exists (has_key (key r)) rs ≡ false
      → Unique key (rs ++ r ∷ [])
  unfolding exists
  Unique-append_one [] r u f = (refl, tt)
  Unique-append_one (x ∷ rs) r u f = (
    rw (exists-append_one (key x) rs r, u.0) (ground arith),
    Unique-append_one rs r u.1 (ground arith),
  )

  exists-update_key :
      (k : ℕ) (q : A → Bool) (f : A → A) (rs : List A)
      → ((r : A) → key (rewrite_row q f r) ≡ key r)
      → exists (has_key k) (update q f rs) ≡ exists (has_key k) rs
  unfolding exists update
  exists-update_key k q f [] h = refl
  exists-update_key k q f (x ∷ rs) h = rw (h x, exists-update_key k q f rs h)

  pub Unique-update :
      (q : A → Bool) (f : A → A) (rs : List A)
      → ((r : A) → key (rewrite_row q f r) ≡ key r)
      → Unique key rs
      → Unique key (update q f rs)
  unfolding update
  Unique-update q f [] h u = tt
  Unique-update q f (x ∷ rs) h u =
      (rw (h x, exists-update_key (key x) q f rs h) (u.0), Unique-update q f rs h u.1)

  exists-delete :
      (p q : A → Bool) (rs : List A) → exists p rs ≡ false → exists p (delete q rs) ≡ false
  unfolding exists delete
  exists-delete p q [] h = refl
  exists-delete p q (x ∷ rs) h = ground (arith, exists-delete p q rs)

  pub Unique-delete : (q : A → Bool) (rs : List A) → Unique key rs → Unique key (delete q rs)
  unfolding delete
  Unique-delete q [] u = tt
  Unique-delete q (x ∷ rs) u = elim (Bool-cases (q x)) [
    | inl gone ↦ rw gone (Unique-delete q rs u.1)
    | inr kept ↦ rw kept (exists-delete (has_key (key x)) q rs u.0, Unique-delete q rs u.1)
  ]

  -- Below the row of a key there is no other.
  pub absent :
      (k : ℕ) (x : A) (rs : List A)
      → Unique key (x ∷ rs)
      → (key x == k) ≡ true
      → exists (has_key k) rs ≡ false
  absent k x rs u h = subst (λ j. exists (has_key j) rs ≡ false) ((==_iff (key x) k).0 h) u.0

  pub exists_found :
      (p q : A → Bool) (rs : List A) (r : A)
      → scalar p rs ≡ some r
      → q r ≡ true
      → exists q rs ≡ true
  unfolding scalar exists
  exists_found p q [] r e h = cc
  exists_found p q (x ∷ rs) r e h = ground (arith, exists_found p q rs r)

  pub exists_and :
      (p q : A → Bool) (rs : List A) → exists p rs ≡ false → exists (λ r. p r && q r) rs ≡ false
  unfolding exists
  exists_and p q [] h = refl
  exists_and p q (x ∷ rs) h = ground (arith, exists_and p q rs)

  pub update_absent :
      (p : A → Bool) (f : A → A) (rs : List A) → exists p rs ≡ false → update p f rs ≡ rs
  unfolding exists update
  update_absent p f [] h = refl
  update_absent p f (x ∷ rs) h = ground (arith, update_absent p f rs)

  delete_absent : (p : A → Bool) (rs : List A) → exists p rs ≡ false → delete p rs ≡ rs
  unfolding exists delete
  delete_absent p [] h = refl
  delete_absent p (x ∷ rs) h = ground (arith, delete_absent p rs)

  -- A row found by more than its key is the row of its key.
  pub scalar-key :
      (p : A → Bool) (rs : List A) (r : A)
      → Unique key rs
      → scalar p rs ≡ some r
      → scalar (has_key (key r)) rs ≡ some r
  unfolding scalar exists
  scalar-key p [] r u e = cc
  scalar-key p (x ∷ rs) r u e = elim (Bool-cases (p x)) [
    | inl hit ↦ let same : x ≡ r = ground arith in rw (ap key same, ==_refl (key r)) (ap some same)
    | inr miss ↦
        let rest : scalar p rs ≡ some r = ground arith in
        elim (Bool-cases (key x == key r)) [
          | inl same ↦ cc (
            absent (key r) x rs u same,
            exists_found p (has_key (key r)) rs r rest (==_refl (key r)),
          )
          | inr other ↦ rw other (scalar-key p rs r u.1 rest)
        ]
  ]

  -- Whether some row has the key k and the property q is decided by the row of the key.
  pub exists-key :
      (k : ℕ) (q : A → Bool) (rs : List A) (r : A)
      → Unique key rs
      → scalar (has_key k) rs ≡ some r
      → exists (λ s. key s == k && q s) rs ≡ q r
  unfolding scalar exists
  exists-key k q [] r u e = cc
  exists-key k q (x ∷ rs) r u e = elim (Bool-cases (key x == k)) [
    | inl hit ↦ ground (arith, exists_and (has_key k) q rs (absent k x rs u hit))
    | inr miss ↦ ground (arith, exists-key k q rs r u.1)
  ]

  -- The row of a key gives way to another: a count changes by these two.
  pub count-replace :
      (p : A → Bool) (k : ℕ) (r s : A) (rs : List A)
      → Unique key rs
      → scalar (has_key k) rs ≡ some r
      → count p (update (has_key k) (λ _. s) rs) + (if p r then 1 else 0)
        ≡ count p rs + (if p s then 1 else 0)
  unfolding scalar count update
  count-replace p k r s [] u e = cc
  count-replace p k r s (x ∷ rs) u e = elim (Bool-cases (key x == k)) [
    | inl hit ↦ ground (arith, update_absent (has_key k) (λ _. s) rs (absent k x rs u hit))
    | inr miss ↦ ground (arith, count-replace p k r s rs u.1)
  ]

  -- Deleting the row of a key takes away its value.
  pub sum-delete_key :
      (p : A → Bool) (v : A → ℕ) (k : ℕ) (r : A) (rs : List A)
      → Unique key rs
      → scalar (has_key k) rs ≡ some r
      → sum p v (delete (has_key k) rs) + (if p r then v r else 0) ≡ sum p v rs
  unfolding scalar sum delete
  sum-delete_key p v k r [] u e = cc
  sum-delete_key p v k r (x ∷ rs) u e = elim (Bool-cases (key x == k)) [
    | inl hit ↦ ground (arith, delete_absent (has_key k) rs (absent k x rs u hit))
    | inr miss ↦ ground (arith, sum-delete_key p v k r rs u.1)
  ]

  pub count-delete_key :
      (p : A → Bool) (k : ℕ) (r : A) (rs : List A)
      → Unique key rs
      → scalar (has_key k) rs ≡ some r
      → count p (delete (has_key k) rs) + (if p r then 1 else 0) ≡ count p rs
  unfolding scalar count delete
  count-delete_key p k r [] u e = cc
  count-delete_key p k r (x ∷ rs) u e = elim (Bool-cases (key x == k)) [
    | inl hit ↦ ground (arith, delete_absent (has_key k) rs (absent k x rs u hit))
    | inr miss ↦ ground (arith, count-delete_key p k r rs u.1)
  ]
