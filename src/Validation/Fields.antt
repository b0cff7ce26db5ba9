-- ===== src/Validation/Fields.antt =====
-- The fields of a form: what a field that was accepted holds, and that it is accepted as it stands.
use ticketing_system.Prelude.{
  ℕ, ◌≡◌, ◌≤◌, refl, Bool, true, false, ◌&&◌, [], ◌∷◌, Option, none, some, arith, length,
  Bool-cases, Option-cases, inl, inr, sym, subst, ◌∙◌, ap, and_left, and_right,
}
use ticketing_system.Prelude.Text.{
  Text, strip, upper, is_upper, to_upper, strip_idem, strip-upper, upper_idem,
}
use ticketing_system.Validation.{
  ◌>>=◌, or_none, strip_text, has_length, check_optional, check_required, optional_field,
  required_field, all_of, is_tax_char, country_code_crashes, country_field, upper_some,
  upper_or_empty,
}

-- What holds of the value, where there is one.
pub data Gives {ℓ κ} {A : Type ℓ} (Q : A → Type κ) : Option A → Type (ℓ ⊔ κ) where
  absent : Gives Q none
  present : {a : A} → Q a → Gives Q (some a)

module _ {ℓ κ μ} {A : Type ℓ} {B : Type κ} {Q : B → Type μ} where
  pub Gives-bind :
      (m : Option A) (f : A → Option B) → ((a : A) → m ≡ some a → Gives Q (f a)) → Gives Q (m >>= f)
  Gives-bind none f h = absent
  Gives-bind (some a) f h = h a refl

module _ {κ μ} {B : Type κ} {Q : B → Type μ} where
  pub Gives-all : (m : Option B) → ((b : B) → m ≡ some b → Q b) → Gives Q m
  Gives-all none h = absent
  Gives-all (some b) h = present (h b refl)

  Gives_value : {b : B} → Gives Q (some b) → Q b
  Gives_value (present q) = q

  pub Gives_some : (m : Option B) {b : B} → Gives Q m → m ≡ some b → Q b
  Gives_some m h e = Gives_value (subst (Gives Q) e h)

or_none-eq_some : (t s : Text) → or_none t ≡ some s → t ≡ s
or_none-eq_some [] s e = cc
or_none-eq_some (c ∷ t) s e = cc

-- A stripped text that is not empty stays as it is.
strip_text-some : (v s : Text) → strip_text (some v) ≡ some s → strip_text (some s) ≡ some s
unfolding strip_text
strip_text-some v s e =
    let same = or_none-eq_some (strip v) s e in rw (← same, strip_idem v) (e ∙ ap some (sym same))

pub strip_text_eq : (s : Text) → strip_text (some s) ≡ some s → strip s ≡ s
unfolding strip_text
strip_text_eq s e = or_none-eq_some (strip s) s e

pub strip_text-none : strip_text none ≡ none
unfolding strip_text
strip_text-none = refl

pub check_required-some :
    (lo hi : ℕ) (fits : Text → Bool) (o : Option Text) (s : Text)
    → check_required lo hi fits o ≡ some s
    → (o ≡ some s) × (has_length lo hi s ≡ true) × (fits s ≡ true)
check_required-some lo hi fits none s e = cc
check_required-some lo hi fits (some t) s e = elim (Bool-cases (has_length lo hi t && fits t)) [
  | inl hit ↦
      let same : t ≡ s = ground (arith, e, hit) in
      (
        ap some same,
        subst (λ x. has_length lo hi x ≡ true) same (and_left _ _ hit),
        subst (λ x. fits x ≡ true) same (and_right (has_length lo hi t) _ hit),
      )
  | inr miss ↦ absurd (ground (arith, e, miss))
]

-- A field that was accepted is accepted as it stands.
pub required_field-again :
    (lo hi : ℕ) (fits : Text → Bool) (v s : Text)
    → required_field lo hi fits v ≡ some s
    → required_field lo hi fits s ≡ some s
unfolding required_field
required_field-again lo hi fits v s e =
    let (stripped, long, fit) = check_required-some lo hi fits (strip_text (some v)) s e in
    rw (strip_text-some v s stripped, long, fit) refl

check_optional-some :
    (lo hi : ℕ) (fits : Text → Bool) (t : Text) (r : Option Text)
    → check_optional lo hi fits (some t) ≡ some r
    → (r ≡ some t) × (has_length lo hi t ≡ true) × (fits t ≡ true)
check_optional-some lo hi fits t r e = elim (Bool-cases (has_length lo hi t && fits t)) [
  | inl hit ↦ (ground (arith, e, hit), and_left _ _ hit, and_right (has_length lo hi t) _ hit)
  | inr miss ↦ absurd (ground (arith, e, miss))
]

-- What an accepted optional field holds, and that it is accepted as it stands.
pub optional_field-some :
    (lo hi : ℕ) (fits : Text → Bool) (v : Option Text) (t : Text)
    → optional_field lo hi fits v ≡ some (some t)
    → (strip_text (some t) ≡ some t) × (has_length lo hi t ≡ true) × (fits t ≡ true)
unfolding optional_field
optional_field-some lo hi fits none t e = absurd (ground (arith, e, strip_text-none))
optional_field-some lo hi fits (some v) t e = elim (Option-cases (strip_text (some v))) [
  | inl blank ↦ absurd (ground (arith, e, blank))
  | inr (u, full) ↦
      let (same, long, fit) = check_optional-some lo hi fits u (some t) (rw full at e) in
      let at_t : u ≡ t = cc in
      (
        strip_text-some v t (full ∙ ap some at_t),
        subst (λ x. has_length lo hi x ≡ true) at_t long,
        subst (λ x. fits x ≡ true) at_t fit,
      )
]

pub optional_field-again :
    (lo hi : ℕ) (fits : Text → Bool) (v r : Option Text)
    → optional_field lo hi fits v ≡ some r
    → optional_field lo hi fits r ≡ some r
unfolding optional_field
optional_field-again lo hi fits v none e = rw strip_text-none refl
optional_field-again lo hi fits v (some t) e =
    let (stripped, long, fit) = optional_field-some lo hi fits v t e in
    rw (stripped, long, fit) refl

upper_of_tax : (t : Text) → all_of is_tax_char t ≡ true → upper t ≡ t
unfolding to_upper
upper_of_tax [] h = refl
upper_of_tax (c ∷ t) h = ground (arith, h, upper_of_tax t)

pub upper_some_of_tax :
    (o : Option Text) → optional_field 6 32 (all_of is_tax_char) o ≡ some o → upper_some o ≡ o
upper_some_of_tax none e = refl
upper_some_of_tax (some t) e =
    ap some (upper_of_tax t (optional_field-some 6 32 (all_of is_tax_char) (some t) t e).2)

or_none_full : (t : Text) → 1 ≤ length t → or_none t ≡ some t
or_none_full [] h = absurd (omega arith)
or_none_full (c ∷ t) h = refl

-- A stripped text in capitals is stripped.
strip_text-upper :
    (u c : Text)
    → strip_text (some u) ≡ some u
    → upper u ≡ c
    → 1 ≤ length c
    → strip_text (some c) ≡ some c
unfolding strip_text
strip_text-upper u c stripped at_c long =
    let same = or_none-eq_some (strip u) u stripped in
    let strip_c : strip c ≡ c = rw (← at_c, strip-upper u, same) refl in
    rw strip_c (or_none_full c long)

-- An accepted country code: two capitals, and accepted as it stands.
pub record IsCountry (c : Text) : Type 0 where
  pub again : country_field c ≡ some c
  pub quiet : country_code_crashes c ≡ false
  pub two : length c ≡ 2
  pub capitals : all_of is_upper c ≡ true
  pub trimmed : strip c ≡ c

not_crashing : (c : Text) → strip_text (some c) ≡ some c → country_code_crashes c ≡ false
unfolding country_code_crashes
not_crashing [] e = refl
not_crashing (d ∷ c) e = rw e refl

pub country_field-IsCountry : (v c : Text) → country_field v ≡ some c → IsCountry c
unfolding country_field
country_field-IsCountry v c e =
    let (accepted, long, fit) =
      check_required-some 2 2 (all_of is_upper) (some (upper_or_empty (strip_text (some v)))) c e in
    let two : length c ≡ 2 = ground (arith, long) in
    elim (Option-cases (strip_text (some v))) [
      | inl blank ↦
          let empty : [] ≡ c = ground (arith, accepted, blank) in
          absurd (omega (arith, two, ap length empty))
      | inr (u, full) ↦
          let at_c : upper u ≡ c = ground (arith, accepted, full) in
          let stripped =
            strip_text-upper u c (strip_text-some v u full) at_c (omega (arith, two)) in
          let same : upper c ≡ c = rw (← at_c) (upper_idem u) in
          record {
            again = rw (stripped, same, long, fit) refl;
            quiet = not_crashing c stripped;
            two = two;
            capitals = fit;
            trimmed = strip_text_eq c stripped;
          }
    ]
