-- ===== src/Table/Kept.antt =====
-- A table with generated keys and a unique constraint, as its statements keep it.
use ticketing_system.Prelude.{
  ℕ, suc, ◌<◌, ◌≡◌, refl, Bool, true, false, not, ◌&&◌, List, [], ◌∷◌, ◌++◌, some, arith, ◌==◌, All,
  Bool-cases, inl, inr, subst, sym, ==_iff,
}
use ticketing_system.Table.{scalar, exists, update, delete, Unique}
use ticketing_system.Table.Laws.{
  All-append, All-map, All-update, All-delete, scalar-All, scalar_holds, exists_less, exists-All,
}
use ticketing_system.Table.Keys.{
  has_key, exists_fresh, Unique-append_one, Unique-update, Unique-delete, absent, update_absent,
}
use ticketing_system.Table.Distinct.{
  AreDistinct, AreDistinct-append, AreDistinct-replace, AreDistinct-delete, clashes,
}

module _ {ℓ} {A : Type ℓ} (key : A → ℕ) (same : A → A → Bool) where
  -- Keys are unique and below the next one, and no two rows are the same.
  pub record IsKept (next : ℕ) (rs : List A) : Type ℓ where
    pub keys : Unique key rs
    pub below : All (λ r. key r < next) rs
    pub distinct : AreDistinct same rs

  pub IsKept-skip : (n : ℕ) (rs : List A) → IsKept n rs → IsKept (suc n) rs
  IsKept-skip n rs h = record {
    keys = h.keys;
    below = All-map (λ r. key r < n) (λ r. key r < suc n) rs (λ r b. omega arith) h.below;
    distinct = h.distinct;
  }

  pub IsKept-delete : (n : ℕ) (q : A → Bool) (rs : List A) → IsKept n rs → IsKept n (delete q rs)
  IsKept-delete n q rs h = record {
    keys = Unique-delete key q rs h.keys;
    below = All-delete (λ r. key r < n) q rs h.below;
    distinct = AreDistinct-delete same q rs h.distinct;
  }

  module _ (symmetric : (a b : A) → same a b ≡ same b a) where
    pub IsKept-append :
        (n : ℕ) (r : A) (rs : List A)
        → key r ≡ n
        → exists (λ s. same s r) rs ≡ false
        → IsKept n rs
        → IsKept (suc n) (rs ++ r ∷ [])
    IsKept-append n r rs e new h = record {
      keys =
          Unique-append_one key rs r h.keys (
            subst (λ k. exists (has_key key k) rs ≡ false) (sym e) (exists_fresh key n rs h.below));
      below =
          All-append (λ s. key s < suc n) rs (r ∷ []) (IsKept-skip n rs h).below
            (omega (arith, e), tt);
      distinct = AreDistinct-append same symmetric r rs new h.distinct;
    }

    pub IsKept-replace :
        (n : ℕ) (old r : A) (rs : List A)
        → scalar (has_key key (key r)) rs ≡ some old
        → exists (clashes same symmetric key r) rs ≡ false
        → IsKept n rs
        → IsKept n (update (has_key key (key r)) (λ _. r) rs)
    IsKept-replace n old r rs found free h =
        let at_key = scalar_holds (has_key key (key r)) rs old found in
        let bound = scalar-All (λ s. key s < n) (has_key key (key r)) rs old h.below found in
        let named : key old ≡ key r = (==_iff (key old) (key r)).0 at_key in
        record {
          keys = Unique-update key (has_key key (key r)) (λ _. r) rs (λ s. ground arith) h.keys;
          below =
              All-update (λ s. key s < n) (λ s. key s < n) (has_key key (key r)) (λ _. r) rs
                (λ s b. ground (arith, b, bound, named)) h.below;
          distinct = AreDistinct-replace same symmetric key r rs h.keys free h.distinct;
        }

    -- No other row is the same as one of the table.
    pub found_free :
        (v : A) (rs : List A)
        → AreDistinct same rs
        → scalar (has_key key (key v)) rs ≡ some v
        → exists (λ s. not (key s == key v) && same s v) rs ≡ false
    unfolding scalar exists
    found_free v [] d e = refl
    found_free v (x ∷ rs) d e = elim (Bool-cases (key x == key v)) [
      | inl hit ↦
          let at_v : x ≡ v = ground (arith, e, hit) in
          let none_same = subst (λ y. exists (λ s. same s y) rs ≡ false) at_v d.0 in
          rw hit (exists_less _ (λ s. same s v) rs (λ r f. ground (arith, f)) none_same)
      | inr miss ↦
          let found : scalar (has_key key (key v)) rs ≡ some v = ground (arith, e, miss) in
          let other : same v x ≡ false =
            scalar-All (λ s. same s x ≡ false) (has_key key (key v)) rs v (exists-All _ rs d.0)
              found in
          rw (miss, symmetric x v, other) (found_free v rs d.1 found)
    ]

module _ {ℓ} {A : Type ℓ} (key : A → ℕ) where
  -- A row that fits q if the old one did: what fitted still does.
  pub exists-replace_true :
      (q : A → Bool) (k : ℕ) (old r : A) (rs : List A)
      → Unique key rs
      → scalar (has_key key k) rs ≡ some old
      → (q old ≡ true → q r ≡ true)
      → exists q rs ≡ true
      → exists q (update (has_key key k) (λ _. r) rs) ≡ true
  unfolding scalar exists update
  exists-replace_true q k old r [] u found fits e = e
  exists-replace_true q k old r (x ∷ rs) u found fits e = elim (Bool-cases (key x == k)) [
    | inl hit ↦
        let same : x ≡ old = ground (arith, found, hit) in
        let fits_x : q x ≡ true → q r ≡ true =
          subst (λ y. q y ≡ true → q r ≡ true) (sym same) fits in
        rw (hit, update_absent key (has_key key k) (λ _. r) rs (absent key k x rs u hit))
          (ground (arith, e, fits_x))
    | inr miss ↦
        let rest = exists-replace_true q k old r rs u.1 (ground (arith, found, miss)) fits in
        rw miss (ground (arith, e, rest))
  ]
