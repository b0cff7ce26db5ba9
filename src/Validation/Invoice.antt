-- ===== src/Validation/Invoice.antt =====
-- The invoice form: what passes is well formed, and passing again changes nothing.
use ticketing_system.Prelude.{
  ◌≡◌, ◌≢◌, refl, true, false, [], ◌∷◌, Option, none, some, arith, is_some, Bool-cases,
  Option-cases, inl, inr, ◌∙◌, ap, ◌↔◌,
}
use ticketing_system.Prelude.Text.{Text, strip, is_upper}
use ticketing_system.Validation.{
  valid, crashed, or_none, strip_text, any_text, all_of, is_tax_char, InvoiceForm,
  country_code_crashes, check_fields, or_rejected, validate_invoice,
}
use ticketing_system.Validation.Fields.{Gives_some}
use ticketing_system.Validation.Settled.{
  IsTrimmed, IsAbsentOr, required-IsTrimmed, optional-IsAbsentOr, HasShape, check_fields-Settled,
  Settled-again,
}

validate_invoice-cases :
    (f g : InvoiceForm) → validate_invoice f ≡ valid g → check_fields f ≡ some g
unfolding validate_invoice
validate_invoice-cases f g e = elim (Bool-cases (country_code_crashes f.country_code)) [
  | inl crash ↦ absurd (ground (arith, e, crash))
  | inr quiet ↦ elim (Option-cases (check_fields f)) [
    | inl no_form ↦ absurd (ground (arith, e, quiet, no_form))
    | inr (h, form) ↦ form ∙ ap some (ground (arith, e, quiet, form))
  ]
]

-- A valid invoice form has what its type asks for and nothing of the other type and a country code of
-- two capitals; every text that it holds has no white space around it and a length within its field's
-- limits, a tax number also only characters that tax numbers have; and validating it again gives the
-- same form.
pub validate_invoice_valid :
    (f g : InvoiceForm)
    → validate_invoice f ≡ valid g
    → HasShape g.invoice_type g
      × (IsTrimmed 2 2 g.country_code × (all_of is_upper g.country_code ≡ true))
      × IsTrimmed 2 200 g.street
      × IsTrimmed 4 12 g.postal_code
      × IsTrimmed 2 100 g.city
      × IsAbsentOr 3 200 any_text g.full_name
      × IsAbsentOr 2 200 any_text g.company_name
      × IsAbsentOr 6 32 (all_of is_tax_char) g.tax_id
      × (validate_invoice g ≡ valid g)
unfolding validate_invoice
validate_invoice_valid f g e =
    let settled = Gives_some _ (check_fields-Settled f) (validate_invoice-cases f g e) in
    let (_, c, shape, _) = settled in
    let two = c.country.two in
    (
      shape,
      ((c.country.trimmed, omega (arith, two), omega (arith, two)), c.country.capitals),
      required-IsTrimmed 2 200 g.street c.street,
      required-IsTrimmed 4 12 g.postal_code c.postal,
      required-IsTrimmed 2 100 g.city c.city,
      optional-IsAbsentOr 3 200 any_text g.full_name c.full,
      optional-IsAbsentOr 2 200 any_text g.company_name c.company,
      optional-IsAbsentOr 6 32 (all_of is_tax_char) g.tax_id c.tax,
      rw (c.country.quiet, Settled-again g settled) refl,
    )

or_none_missing : (t : Text) → is_some (or_none t) ≡ false → t ≡ []
or_none_missing [] h = refl
or_none_missing (c ∷ t) h = cc

country_code_crashes_iff :
    (v : Text) → (country_code_crashes v ≡ true) ↔ ((v ≢ []) × (strip v ≡ []))
unfolding country_code_crashes strip_text
country_code_crashes_iff [] = (λ h. absurd (ground (arith, h)), λ h. absurd (h.0 refl))
country_code_crashes_iff (c ∷ s) =
    (λ h. (λ e. cc, or_none_missing (strip (c ∷ s)) (ground (arith, h))), λ h. rw (h.1) refl)

or_rejected_quiet : {A : Type 0} (o : Option A) → or_rejected o ≢ crashed
or_rejected_quiet none e = cc
or_rejected_quiet (some a) e = cc

-- The validator raises an exception that is no validation error exactly for a country code that is
-- not empty and holds nothing but white space.
pub validate_invoice_crashes :
    (f : InvoiceForm)
    → (validate_invoice f ≡ crashed) ↔ ((f.country_code ≢ []) × (strip f.country_code ≡ []))
unfolding validate_invoice
validate_invoice_crashes f =
    let (to_blank, to_crash) = country_code_crashes_iff f.country_code in
    (
      λ e. to_blank (elim (Bool-cases (country_code_crashes f.country_code)) [
        | inl crash ↦ crash
        | inr quiet ↦ absurd (or_rejected_quiet (check_fields f) (rw quiet at e))
      ]),
      λ blank. rw (to_crash blank) refl,
    )
