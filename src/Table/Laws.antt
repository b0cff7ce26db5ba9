-- ===== src/Table/Laws.antt =====
-- What the statements of one table do to one another.
use ticketing_system.Prelude.{
  take, zero, suc, ℕ, ◌+◌, ◌≤◌, ◌≡◌, refl, Bool, true, false, ◌&&◌, ◌||◌, List, [], ◌∷◌, ◌++◌, none,
  some, arith, if◌then◌else◌, All, length, Bool-cases, inl, inr, subst,
}
use mathlib.Core.Option
use ticketing_system.Table.{scalar, exists, select, count, sum, update, delete, rewrite_row}

module _ {ℓ} {A : Type ℓ} where
  pub scalar_holds : (p : A → Bool) (rs : List A) (r : A) → scalar p rs ≡ some r → p r ≡ true
  unfolding scalar
  scalar_holds p [] r e = cc
  scalar_holds p (x ∷ rs) r e = ground (arith, scalar_holds p rs r)

  pub scalar-exists :
      (p : A → Bool) (rs : List A) (r : A) → scalar p rs ≡ some r → exists p rs ≡ true
  unfolding scalar exists
  scalar-exists p [] r e = cc
  scalar-exists p (x ∷ rs) r e = ground (arith, scalar-exists p rs r)

  pub scalar-none : (p : A → Bool) (rs : List A) → exists p rs ≡ false → scalar p rs ≡ none
  unfolding scalar exists
  scalar-none p [] e = refl
  scalar-none p (x ∷ rs) e = ground (arith, scalar-none p rs)

  pub if-All {κ} :
      (P : A → Type κ) (b : Bool) (x : A) (rs : List A)
      → P x
      → All P rs
      → All P (if b then x ∷ rs else rs)
  if-All P true x rs h a = (h, a)
  if-All P false x rs h a = a

  -- A found row has whatever every row has.
  pub scalar-All {κ} :
      (P : A → Type κ) (p : A → Bool) (rs : List A) (r : A) → All P rs → scalar p rs ≡ some r → P r
  unfolding scalar
  scalar-All P p [] r h e = cc
  scalar-All P p (x ∷ rs) r h e = elim (Bool-cases (p x)) [
    | inl hit ↦ subst P (ground arith) h.0
    | inr miss ↦ scalar-All P p rs r h.1 (ground arith)
  ]

  pub exists-append :
      (p : A → Bool) (xs ys : List A) → exists p xs ≡ false → exists p (xs ++ ys) ≡ exists p ys
  unfolding exists
  exists-append p [] ys h = refl
  exists-append p (x ∷ xs) ys h = ground (arith, exists-append p xs ys)

  pub scalar-append :
      (p : A → Bool) (xs ys : List A) (r : A) → scalar p xs ≡ some r → scalar p (xs ++ ys) ≡ some r
  unfolding scalar
  scalar-append p [] ys r e = cc
  scalar-append p (x ∷ xs) ys r e = ground (arith, scalar-append p xs ys r)

  pub count-append : (p : A → Bool) (xs ys : List A) → count p (xs ++ ys) ≡ count p xs + count p ys
  unfolding count
  count-append p [] ys = omega arith
  count-append p (x ∷ xs) ys = omega (arith, count-append p xs ys)

  pub sum-append :
      (p : A → Bool) (v : A → ℕ) (xs ys : List A) → sum p v (xs ++ ys) ≡ sum p v xs + sum p v ys
  unfolding sum
  sum-append p v [] ys = omega arith
  sum-append p v (x ∷ xs) ys = omega (arith, sum-append p v xs ys)

  pub count-exists : (p : A → Bool) (rs : List A) → exists p rs ≡ false → count p rs ≡ 0
  unfolding count exists
  count-exists p [] h = refl
  count-exists p (x ∷ rs) h = ground (arith, count-exists p rs)

  pub count_mono :
      (p q : A → Bool) (rs : List A) → ((r : A) → p r ≡ true → q r ≡ true) → count p rs ≤ count q rs
  unfolding count
  count_mono p q [] h = omega arith
  count_mono p q (x ∷ rs) h = ground (arith, count_mono p q rs h, h x)

  pub count_ext : (p q : A → Bool) (rs : List A) → ((r : A) → p r ≡ q r) → count p rs ≡ count q rs
  unfolding count
  count_ext p q [] h = refl
  count_ext p q (x ∷ rs) h = rw (h x, count_ext p q rs h)

  pub sum_none : (p : A → Bool) (v : A → ℕ) (rs : List A) → ((r : A) → p r ≡ false) → sum p v rs ≡ 0
  unfolding sum
  sum_none p v [] h = refl
  sum_none p v (x ∷ rs) h = rw (h x) (omega (arith, sum_none p v rs h))

  -- A change that makes no row match counts no more.
  pub count-update-le :
      (p q : A → Bool) (f : A → A) (rs : List A)
      → ((r : A) → p (rewrite_row q f r) ≡ true → p r ≡ true)
      → count p (update q f rs) ≤ count p rs
  unfolding count update
  count-update-le p q f [] h = omega arith
  count-update-le p q f (x ∷ rs) h = ground (arith, count-update-le p q f rs h, h x)

  pub count-update :
      (p q : A → Bool) (f : A → A) (rs : List A)
      → ((r : A) → p (rewrite_row q f r) ≡ p r)
      → count p (update q f rs) ≡ count p rs
  unfolding count update
  count-update p q f [] h = refl
  count-update p q f (x ∷ rs) h = rw (h x) (omega (arith, count-update p q f rs h))

  pub scalar-update :
      (p q : A → Bool) (f : A → A) (rs : List A)
      → ((r : A) → p (rewrite_row q f r) ≡ p r)
      → scalar p (update q f rs) ≡ Option.map (rewrite_row q f) (scalar p rs)
  unfolding scalar update
  scalar-update p q f [] h = refl
  scalar-update p q f (x ∷ rs) h = rw (h x) (ground (arith, scalar-update p q f rs h))

  pub exists-update :
      (p q : A → Bool) (f : A → A) (rs : List A)
      → ((r : A) → p (rewrite_row q f r) ≡ p r)
      → exists p (update q f rs) ≡ exists p rs
  unfolding exists update
  exists-update p q f [] h = refl
  exists-update p q f (x ∷ rs) h = rw (h x, exists-update p q f rs h)

  -- What a deletion takes away is what it matches.
  pub count-delete :
      (p q : A → Bool) (rs : List A)
      → count p (delete q rs) + count (λ r. p r && q r) rs ≡ count p rs
  unfolding count delete
  count-delete p q [] = refl
  count-delete p q (x ∷ rs) = ground (arith, count-delete p q rs)

  pub length-delete : (q : A → Bool) (rs : List A) → length (delete q rs) + count q rs ≡ length rs
  unfolding count delete
  length-delete q [] = refl
  length-delete q (x ∷ rs) = ground (arith, length-delete q rs)

  pub sum-delete :
      (p q : A → Bool) (v : A → ℕ) (rs : List A)
      → sum p v (delete q rs) + sum (λ r. p r && q r) v rs ≡ sum p v rs
  unfolding sum delete
  sum-delete p q v [] = refl
  sum-delete p q v (x ∷ rs) = ground (arith, sum-delete p q v rs)

  pub count-delete-le : (p q : A → Bool) (rs : List A) → count p (delete q rs) ≤ count p rs
  count-delete-le p q rs = omega (arith, count-delete p q rs)

  pub All-append {κ} : (P : A → Type κ) (xs ys : List A) → All P xs → All P ys → All P (xs ++ ys)
  All-append P [] ys hx hy = hy
  All-append P (x ∷ xs) ys hx hy = (hx.0, All-append P xs ys hx.1 hy)

  pub All-map {κ μ} :
      (P : A → Type κ) (Q : A → Type μ) (rs : List A) → ((r : A) → P r → Q r) → All P rs → All Q rs
  All-map P Q [] h a = tt
  All-map P Q (x ∷ rs) h a = (h x a.0, All-map P Q rs h a.1)

  pub All-delete {κ} :
      (P : A → Type κ) (q : A → Bool) (rs : List A) → All P rs → All P (delete q rs)
  unfolding delete
  All-delete P q [] a = tt
  All-delete P q (x ∷ rs) a = elim (Bool-cases (q x)) [
    | inl gone ↦ rw gone (All-delete P q rs a.1)
    | inr kept ↦ rw kept (a.0, All-delete P q rs a.1)
  ]

  pub All-update {κ μ} :
      (P : A → Type κ) (Q : A → Type μ) (q : A → Bool) (f : A → A) (rs : List A)
      → ((r : A) → P r → Q (rewrite_row q f r))
      → All P rs
      → All Q (update q f rs)
  unfolding update
  All-update P Q q f [] h a = tt
  All-update P Q q f (x ∷ rs) h a = (h x a.0, All-update P Q q f rs h a.1)

  pub exists_mono :
      (p q : A → Bool) (rs : List A)
      → ((r : A) → p r ≡ true → q r ≡ true)
      → exists p rs ≡ true
      → exists q rs ≡ true
  unfolding exists
  exists_mono p q [] h e = e
  exists_mono p q (r ∷ rs) h e = elim (Bool-cases (p r)) [
    | inl hit ↦ rw (h r hit) refl
    | inr miss ↦ ground (arith, e, miss, exists_mono p q rs h)
  ]

  pub exists-All : (p : A → Bool) (rs : List A) → exists p rs ≡ false → All (λ r. p r ≡ false) rs
  unfolding exists
  exists-All p [] e = tt
  exists-All p (r ∷ rs) e = (ground (arith, e), exists-All p rs (ground (arith, e)))

  pub All-both {κ μ} :
      (P : A → Type κ) (Q : A → Type μ) (rs : List A)
      → All P rs
      → All Q rs
      → All (λ r. P r × Q r) rs
  All-both P Q [] hp hq = tt
  All-both P Q (r ∷ rs) hp hq = ((hp.0, hq.0), All-both P Q rs hp.1 hq.1)

  pub All-select {κ} :
      (P : A → Type κ) (q : A → Bool) (rs : List A)
      → All P rs
      → All (λ r. P r × (q r ≡ true)) (select q rs)
  unfolding select
  All-select P q [] h = tt
  All-select P q (r ∷ rs) h = elim (Bool-cases (q r)) [
    | inl hit ↦ rw hit ((h.0, hit), All-select P q rs h.1)
    | inr miss ↦ rw miss (All-select P q rs h.1)
  ]

  pub All-take {κ} : (P : A → Type κ) (n : ℕ) (rs : List A) → All P rs → All P (take n rs)
  All-take P zero rs h = tt
  All-take P (suc n) [] h = tt
  All-take P (suc n) (r ∷ rs) h = (h.0, All-take P n rs h.1)

  pub exists_less :
      (p q : A → Bool) (rs : List A)
      → ((r : A) → p r ≡ true → q r ≡ true)
      → exists q rs ≡ false
      → exists p rs ≡ false
  unfolding exists
  exists_less p q [] h e = refl
  exists_less p q (r ∷ rs) h e = ground (arith, h r, e, exists_less p q rs h)

  -- A change that makes no row match leaves none where there was none.
  pub exists-update_less :
      (p q : A → Bool) (f : A → A) (rs : List A)
      → ((r : A) → p (rewrite_row q f r) ≡ true → p r ≡ true)
      → exists p rs ≡ false
      → exists p (update q f rs) ≡ false
  unfolding exists update
  exists-update_less p q f [] h e = refl
  exists-update_less p q f (r ∷ rs) h e = ground (arith, h r, e, exists-update_less p q f rs h)

  pub exists-append_either :
      (p : A → Bool) (rs : List A) (r : A) → exists p (rs ++ r ∷ []) ≡ (exists p rs || p r)
  unfolding exists
  exists-append_either p [] r = ground arith
  exists-append_either p (x ∷ rs) r = ground (arith, exists-append_either p rs r)

  pub exists-append_true :
      (p : A → Bool) (rs : List A) (r : A) → exists p rs ≡ true → exists p (rs ++ r ∷ []) ≡ true
  exists-append_true p rs r h = rw (exists-append_either p rs r, h) refl

  -- A deletion that spares what matches.
  pub exists-delete_other :
      (p q : A → Bool) (rs : List A)
      → ((r : A) → p r ≡ true → q r ≡ false)
      → exists p (delete q rs) ≡ exists p rs
  unfolding exists delete
  exists-delete_other p q [] h = refl
  exists-delete_other p q (r ∷ rs) h = ground (arith, h r, exists-delete_other p q rs h)

  pub count_ext_All :
      (p q : A → Bool) (rs : List A) → All (λ r. p r ≡ q r) rs → count p rs ≡ count q rs
  unfolding count
  count_ext_All p q [] h = refl
  count_ext_All p q (r ∷ rs) h = rw (h.0, count_ext_All p q rs h.1) refl

  pub All-replace {κ} :
      (P : A → Type κ) (q : A → Bool) (s : A) (rs : List A)
      → P s
      → All P rs
      → All P (update q (λ _. s) rs)
  All-replace P q s rs new =
      All-update P P q (λ _. s) rs
        λ r p. elim (Bool-cases (q r)) [ inl hit ↦ rw hit new | inr miss ↦ rw miss p ]
