-- ===== src/Listings/Joins.antt =====
-- Inner joins and filters, as the listings use them.
use ticketing_system.Prelude.{
  ℕ, Bool, List, [], ◌∷◌, Option, none, some, ltb, ◌==◌, ◌||◌, ◌&&◌, leb, All, ◌≡◌, refl,
}
use ticketing_system.Prelude.Text.{Text, lower, same_text}

abbrev pub keep_some {κ} : {B : Type κ} → Option B → List B → List B
keep_some none rest = rest
keep_some (some b) rest = b ∷ rest

module _ {ℓ κ} {A : Type ℓ} {B : Type κ} where
  -- The rows that have what they are joined with.
  unfoldable pub joined : (A → Option B) → List A → List B
  joined f [] = []
  joined f (a ∷ rows) = keep_some (f a) (joined f rows)

module _ {ℓ κ μ ν} {A : Type ℓ} {B : Type κ} (P : A → Type μ) (Q : B → Type ν) (f : A → Option B)
    (step : (a : A) (b : B) → P a → f a ≡ some b → Q b) where
  keep_some-All :
      (a : A) (o : Option B) (rest : List B) → P a → f a ≡ o → All Q rest → All Q (keep_some o rest)
  keep_some-All a none rest p e h = h
  keep_some-All a (some b) rest p e h = (step a b p e, h)

  pub joined-All : (rows : List A) → All P rows → All Q (joined f rows)
  unfolding joined
  joined-All [] h = tt
  joined-All (a ∷ rows) h = keep_some-All a (f a) (joined f rows) h.0 refl (joined-All rows h.1)

infixl 5 ◌>>=◌
abbrev pub ◌>>=◌ {ℓ κ} : {A : Type ℓ} {B : Type κ} → Option A → (A → Option B) → Option B
none >>= next = none
some a >>= next = next a

pub some_injective {ℓ} : {A : Type ℓ} {a b : A} → some a ≡ some b → a ≡ b
some_injective e = cc

pub bind_some {ℓ κ} :
    {A : Type ℓ} {B : Type κ} (o : Option A) (f : A → Option B) (b : B)
    → (o >>= f) ≡ some b
    → (a : A) × (o ≡ some a) × (f a ≡ some b)
bind_some none f b e = cc
bind_some (some a) f b e = (a, refl, e)

-- if value is not None: where.append(test value)
abbrev pub if_given {ℓ κ} : {A : Type ℓ} {B : Type κ} → Option A → (A → B → Bool) → List (B → Bool)
if_given none test = []
if_given (some a) test = test a ∷ []

-- desc(time), key
abbrev pub latest_first : ℕ → ℕ → ℕ → ℕ → Bool
latest_first time key time' key' = ltb time' time || time == time' && leb key key'

-- func.lower(column) == func.lower(value)
abbrev pub same_email : Text → Text → Bool
same_email value column = same_text (lower column) (lower value)
