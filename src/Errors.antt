-- ===== src/Errors.antt =====
-- The exceptions of app/domain/exceptions.py, results that may be one, and the transaction of
-- app/core/database.py.
use ticketing_system.Prelude.{◌≡◌, refl, Bool, true, false, String, Option, none, some, subst}

-- `AppError`'s subclasses with their message; the last three are raised by the libraries, on a
-- violated constraint, on a number that a column cannot hold and on an attribute of `None`.
pub data Error : Type 0 where
  not_found unauthorized forbidden conflict invalid_input unprocessable internal : String → Error
  integrity_error data_error attribute_error : Error

pub data Result {ℓ} (V : Type ℓ) : Type ℓ where
  ok : V → Result V
  err : Error → Result V

abbrev pub is_ok {ℓ} : {V : Type ℓ} → Result V → Bool
is_ok (ok value) = true
is_ok (err raised_error) = false

infixl 5 ◌>>=◌ ◌>>◌
abbrev pub ◌>>=◌ {ℓ κ} : {V : Type ℓ} {W : Type κ} → Result V → (V → Result W) → Result W
err raised_error >>= next = err raised_error
ok value >>= next = next value

abbrev pub ◌>>◌ {ℓ} : {W : Type ℓ} → Result (Unit {0}) → Result W → Result W
first >> next = first >>= λ _. next

-- `if c: raise e`
abbrev pub raise_if : Bool → Error → Result (Unit {0})
raise_if true e = err e
raise_if false e = ok tt

-- `if not o: raise e`, and the object otherwise
abbrev pub or_raise {ℓ} : {A : Type ℓ} → Option A → Error → Result A
or_raise none e = err e
or_raise (some a) e = ok a

-- `try: m except IntegrityError: raise e`
abbrev pub on_integrity_error {ℓ} : {A : Type ℓ} → Result A → Error → Result A
on_integrity_error (ok a) e = ok a
on_integrity_error (err integrity_error) e = err e
on_integrity_error (err other) e = err other

-- What is made of a result that is no error.
abbrev pub on_ok {ℓ κ} : {A : Type ℓ} {B : Type κ} → (A → B) → Result A → Result B
on_ok f (ok a) = ok (f a)
on_ok f (err e) = err e

-- What holds of the value, where there is one. It is a family, so that it shows its arguments.
pub data Ensures {ℓ κ} {A : Type ℓ} (Q : A → Type κ) : Result A → Type (ℓ ⊔ κ) where
  returned : {a : A} → Q a → Ensures Q (ok a)
  raised : {e : Error} → Ensures Q (err e)

module _ {ℓ κ μ} {A : Type ℓ} {B : Type κ} {Q : B → Type μ} where
  pub Ensures-bind :
      (m : Result A) (f : A → Result B)
      → ((a : A) → m ≡ ok a → Ensures Q (f a))
      → Ensures Q (m >>= f)
  Ensures-bind (ok a) f h = h a refl
  Ensures-bind (err e) f h = raised

module _ {κ μ} {B : Type κ} {Q : B → Type μ} where
  pub Ensures-raise_if :
      (c : Bool) (e : Error) (k : Result B)
      → (c ≡ false → Ensures Q k)
      → Ensures Q (raise_if c e >>= λ _. k)
  Ensures-raise_if true e k h = raised
  Ensures-raise_if false e k h = h refl

  pub Ensures_value : {b : B} → Ensures Q (ok b) → Q b
  Ensures_value (returned q) = q

  pub Ensures_ok : (r : Result B) {b : B} → Ensures Q r → r ≡ ok b → Q b
  Ensures_ok r h e = Ensures_value (subst (Ensures Q) e h)

module _ {κ μ ν} {B : Type κ} {P : B → Type μ} {Q : B → Type ν} where
  pub Ensures-map : (r : Result B) → ((b : B) → P b → Q b) → Ensures P r → Ensures Q r
  Ensures-map (ok b) h (returned p) = returned (h b p)
  Ensures-map (err e) h q = raised

module _ {κ μ} {B : Type κ} {Q : B → Type μ} where
  pub Ensures-on_integrity_error :
      (r : Result B) (e : Error) → Ensures Q r → Ensures Q (on_integrity_error r e)
  Ensures-on_integrity_error (ok b) e q = q
  Ensures-on_integrity_error (err integrity_error) e q = raised
  Ensures-on_integrity_error (err _) e q = raised

pub or_raise_ok {ℓ} :
    {A : Type ℓ} (o : Option A) (e : Error) (a : A) → or_raise o e ≡ ok a → o ≡ some a
or_raise_ok none e a h = cc
or_raise_ok (some b) e a h = cc

-- `get_db`: what a request has written is committed if it returns, and rolled back if it raises.
module _ {ℓ} {A S : Type ℓ} where
  unfoldable pub get_db : S → Result (A × S) → Result A × S
  get_db s (ok (a, s')) = (ok a, s')
  get_db s (err e) = (err e, s)

  pub get_db-Keeps {κ} :
      (P : S → Type κ) (s : S) (r : Result (A × S))
      → P s
      → Ensures (λ (p : A × S). P p.1) r
      → P (get_db s r).1
  unfolding get_db
  get_db-Keeps P s (ok (a, s')) h (returned q) = q
  get_db-Keeps P s (err e) h q = h
