-- ===== src/Table.antt =====
-- A database table as the list of its rows, and the SQL statements that the services send to it.
pub mod Laws
pub mod Keys
pub mod Replace
pub mod Distinct
pub mod Kept
pub mod Search
use ticketing_system.Prelude.{
  ℕ, ◌+◌, ◌≡◌, Bool, false, ◌||◌, List, [], ◌∷◌, Option, none, some, ◌==◌, if◌then◌else◌,
}

module _ {ℓ} {A : Type ℓ} where
  -- db.scalar(select(T).where(p)): the first row, or None
  unfoldable pub scalar : (A → Bool) → List A → Option A
  scalar p [] = none
  scalar p (r ∷ rs) = if p r then some r else scalar p rs

  -- select(1).where(p).exists()
  unfoldable pub exists : (A → Bool) → List A → Bool
  exists p [] = false
  exists p (r ∷ rs) = p r || exists p rs

  -- select(T).where(p)
  unfoldable pub select : (A → Bool) → List A → List A
  select p [] = []
  select p (r ∷ rs) = if p r then r ∷ select p rs else select p rs

  -- select(func.count(T.id)).where(p)
  unfoldable pub count : (A → Bool) → List A → ℕ
  count p [] = 0
  count p (r ∷ rs) = (if p r then 1 else 0) + count p rs

  -- select(func.sum(v)).where(p)
  unfoldable pub sum : (A → Bool) → (A → ℕ) → List A → ℕ
  sum p v [] = 0
  sum p v (r ∷ rs) = (if p r then v r else 0) + sum p v rs

  abbrev pub rewrite_row : (A → Bool) → (A → A) → A → A
  rewrite_row p f r = if p r then f r else r

  -- update(T).where(p).values(f)
  unfoldable pub update : (A → Bool) → (A → A) → List A → List A
  update p f [] = []
  update p f (r ∷ rs) = rewrite_row p f r ∷ update p f rs

  -- delete(T).where(p)
  unfoldable pub delete : (A → Bool) → List A → List A
  delete p [] = []
  delete p (r ∷ rs) = if p r then delete p rs else r ∷ delete p rs

  -- The primary key `key` names at most one row.
  abbrev pub Unique : (A → ℕ) → List A → Type 0
  Unique key [] = Unit
  Unique key (r ∷ rs) = (exists (λ s. key s == key r) rs ≡ false) × Unique key rs
