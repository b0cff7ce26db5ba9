-- ===== src/Validation/Settled.antt =====
-- The invoice form as validation leaves it.
use ticketing_system.Prelude.{
  ℕ, ◌≡◌, ◌≤◌, refl, Bool, true, not, ◌||◌, Option, none, some, arith, length, Bool-cases, inl, inr,
  sym, subst,
}
use ticketing_system.Prelude.Text.{Text, strip}
use ticketing_system.Schema.{InvoiceType}
use ticketing_system.Validation.{
  strip_text, optional_field, required_field, any_text, all_of, is_tax_char, InvoiceForm,
  country_field, is_filled, upper_some, check_type, check_person_or_company, check_fields,
}
use ticketing_system.Validation.Fields.{
  Gives, Gives-bind, Gives-all, strip_text-none, check_required-some, strip_text_eq,
  optional_field-some, required_field-again, optional_field-again, upper_some_of_tax, IsCountry,
  country_field-IsCountry,
}

-- A text without white space around it, of a length in the bounds.
abbrev pub IsTrimmed : ℕ → ℕ → Text → Type 0
IsTrimmed lo hi s = (strip s ≡ s) × (lo ≤ length s) × (length s ≤ hi)

-- Nothing, or such a text that fits.
abbrev pub IsAbsentOr : ℕ → ℕ → (Text → Bool) → Option Text → Type 0
IsAbsentOr lo hi fits none = Unit
IsAbsentOr lo hi fits (some s) = IsTrimmed lo hi s × (fits s ≡ true)

-- The fields of the model, each as validation leaves it.
pub record AreChecked (g : InvoiceForm) : Type 0 where
  pub full : optional_field 3 200 any_text g.full_name ≡ some g.full_name
  pub company : optional_field 2 200 any_text g.company_name ≡ some g.company_name
  pub tax : optional_field 6 32 (all_of is_tax_char) g.tax_id ≡ some g.tax_id
  pub street : required_field 2 200 any_text g.street ≡ some g.street
  pub postal : required_field 4 12 any_text g.postal_code ≡ some g.postal_code
  pub city : required_field 2 100 any_text g.city ≡ some g.city
  pub country : IsCountry g.country_code

no_name : (lo hi : ℕ) → optional_field lo hi any_text none ≡ some none
unfolding optional_field
no_name lo hi = rw strip_text-none refl

no_tax : optional_field 6 32 (all_of is_tax_char) none ≡ some none
unfolding optional_field
no_tax = rw strip_text-none refl

pub required-IsTrimmed :
    (lo hi : ℕ) (s : Text) → required_field lo hi any_text s ≡ some s → IsTrimmed lo hi s
unfolding required_field
required-IsTrimmed lo hi s e =
    let (stripped, long, _) = check_required-some lo hi any_text (strip_text (some s)) s e in
    (strip_text_eq s stripped, ground (arith, long), ground (arith, long))

pub optional-IsAbsentOr :
    (lo hi : ℕ) (fits : Text → Bool) (o : Option Text)
    → optional_field lo hi fits o ≡ some o
    → IsAbsentOr lo hi fits o
optional-IsAbsentOr lo hi fits none e = tt
optional-IsAbsentOr lo hi fits (some s) e =
    let (stripped, long, fit) = optional_field-some lo hi fits (some s) s e in
    ((strip_text_eq s stripped, ground (arith, long), ground (arith, long)), fit)

-- By the type, the other kind's fields are empty and its own are there.
abbrev pub HasShape : InvoiceType → InvoiceForm → Type 0
HasShape InvoiceType.company g =
    (g.full_name ≡ none)
    × (is_filled g.company_name ≡ true)
    × (is_filled g.tax_id ≡ true)
    × (upper_some g.tax_id ≡ g.tax_id)
HasShape InvoiceType.person g =
    (g.company_name ≡ none) × (g.tax_id ≡ none) × (is_filled g.full_name ≡ true)

abbrev pub Settled : InvoiceType → InvoiceForm → Type 0
Settled ty g = (g.invoice_type ≡ ty) × AreChecked g × HasShape ty g × (check_type ty g ≡ some g)

check_type-Settled :
    (ty : InvoiceType) (f g : InvoiceForm)
    → f.invoice_type ≡ ty
    → AreChecked f
    → check_type ty f ≡ some g
    → Settled ty g
check_type-Settled InvoiceType.company f g is_ty c e =
    elim (Bool-cases (not (is_filled f.company_name) || not (is_filled f.tax_id))) [
      | inl missing ↦ absurd (ground (arith, e, missing))
      | inr filled ↦
          let same_tax = upper_some_of_tax f.tax_id c.tax in
          let plain : InvoiceForm = record f { full_name = none } in
          let company : is_filled f.company_name ≡ true = ground (arith, filled) in
          let tax : is_filled f.tax_id ≡ true = ground (arith, filled) in
          subst (Settled InvoiceType.company) {x = plain} (ground (arith, e, filled, same_tax)) (
            is_ty,
            record {
              full = no_name 3 200;
              company = c.company;
              tax = c.tax;
              street = c.street;
              postal = c.postal;
              city = c.city;
              country = c.country;
            },
            (refl, company, tax, same_tax),
            rw (filled, same_tax) refl,
          )
    ]
check_type-Settled InvoiceType.person f g is_ty c e =
    elim (Bool-cases (not (is_filled f.full_name))) [
      | inl missing ↦ absurd (ground (arith, e, missing))
      | inr filled ↦
          let full : is_filled f.full_name ≡ true = ground (arith, filled) in
          subst (Settled InvoiceType.person) {x = record f { company_name = none; tax_id = none }}
            (ground (arith, e, filled))
            (
              is_ty,
              record {
                full = c.full;
                company = no_name 2 200;
                tax = no_tax;
                street = c.street;
                postal = c.postal;
                city = c.city;
                country = c.country;
              },
              (refl, refl, full),
              rw filled refl,
            )
    ]

pub check_fields-Settled :
    (f : InvoiceForm) → Gives (λ (g : InvoiceForm). Settled g.invoice_type g) (check_fields f)
unfolding check_fields check_person_or_company
check_fields-Settled f = Gives-bind (optional_field 3 200 any_text f.full_name) _ λ full e1.
    Gives-bind (optional_field 2 200 any_text f.company_name) _ λ company e2.
      Gives-bind (optional_field 6 32 (all_of is_tax_char) f.tax_id) _ λ tax e3.
        Gives-bind (required_field 2 200 any_text f.street) _ λ street e4.
          Gives-bind (required_field 4 12 any_text f.postal_code) _ λ postal e5.
            Gives-bind (required_field 2 100 any_text f.city) _ λ city e6.
              Gives-bind (country_field f.country_code) _ λ country e7. Gives-all _ λ g e.
                let settled =
                  check_type-Settled f.invoice_type _ g refl
                    (record {
                      full = optional_field-again 3 200 any_text f.full_name full e1;
                      company = optional_field-again 2 200 any_text f.company_name company e2;
                      tax = optional_field-again 6 32 (all_of is_tax_char) f.tax_id tax e3;
                      street = required_field-again 2 200 any_text f.street street e4;
                      postal = required_field-again 4 12 any_text f.postal_code postal e5;
                      city = required_field-again 2 100 any_text f.city city e6;
                      country = country_field-IsCountry f.country_code country e7;
                    })
                    e in
                subst (λ ty. Settled ty g) (sym settled.0) settled

-- A checked form passes the checks as it stands.
pub Settled-again : (g : InvoiceForm) → Settled g.invoice_type g → check_fields g ≡ some g
unfolding check_fields check_person_or_company
Settled-again g (_, c, _, settled) =
    rw (c.full, c.company, c.tax, c.street, c.postal, c.city, c.country.again) settled
