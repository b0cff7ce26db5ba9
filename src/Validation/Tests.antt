-- ===== src/Validation/Tests.antt =====
-- A company's invoice, and two roles.
use ticketing_system.Prelude.{
  ◌≡◌, ◌≢◌, ◌≤◌, ◌↔◌, refl, true, List, [], ◌∷◌, none, some, length, All,
}
use ticketing_system.Prelude.Text.{Text, strip, is_space, is_upper, to_upper, same_text}
use ticketing_system.Table.{exists}
use ticketing_system.Schema.{InvoiceType}
use ticketing_system.Validation.{
  valid, crashed, InvoiceForm, validate_invoice, check_fields, optional_field, required_field,
  country_field, country_code_crashes, strip_text, check_person_or_company, all_of, any_text,
  is_tax_char, collect_roles, many_roles, one_role, validate_roles, is_allowed_role, customer_name,
  organizer_name, contains,
}
use ticketing_system.Validation.Settled.{HasShape, IsTrimmed, IsAbsentOr}
use ticketing_system.Validation.Invoice.{validate_invoice_valid, validate_invoice_crashes}
use ticketing_system.Validation.Roles.{AreAllowed, AreDistinct, normal_role, validate_roles_valid}

-- A name that no company's invoice keeps, " AB " as company, "123-AB" as tax number and " pl".
abbrev form : InvoiceForm
form = record {
  invoice_type = InvoiceType.company;
  full_name = some (74 ∷ 97 ∷ 110 ∷ []);
  company_name = some (32 ∷ 65 ∷ 66 ∷ 32 ∷ []);
  tax_id = some (49 ∷ 50 ∷ 51 ∷ 45 ∷ 65 ∷ 66 ∷ []);
  street = 77 ∷ 97 ∷ 105 ∷ 110 ∷ [];
  postal_code = 48 ∷ 48 ∷ 48 ∷ 48 ∷ 49 ∷ [];
  city = 32 ∷ 76 ∷ 111 ∷ [];
  country_code = 32 ∷ 112 ∷ 108 ∷ [];
}

abbrev checked : InvoiceForm
checked = record form {
  full_name = none;
  company_name = some (65 ∷ 66 ∷ []);
  city = 76 ∷ 111 ∷ [];
  country_code = 80 ∷ 76 ∷ [];
}

validate_invoice_valid_example :
    HasShape InvoiceType.company checked
    × (IsTrimmed 2 2 checked.country_code × (all_of is_upper checked.country_code ≡ true))
    × IsTrimmed 2 200 checked.street
    × IsTrimmed 4 12 checked.postal_code
    × IsTrimmed 2 100 checked.city
    × IsAbsentOr 3 200 any_text checked.full_name
    × IsAbsentOr 2 200 any_text checked.company_name
    × IsAbsentOr 6 32 (all_of is_tax_char) checked.tax_id
    × (validate_invoice checked ≡ valid checked)
unfolding validate_invoice check_fields optional_field required_field country_field
    country_code_crashes strip_text strip is_space to_upper check_person_or_company
validate_invoice_valid_example = validate_invoice_valid form checked refl

abbrev blank : Text
blank = 32 ∷ 32 ∷ []

validate_invoice_crashes_example :
    (validate_invoice (record form { country_code = blank }) ≡ crashed)
    ↔ ((blank ≢ []) × (strip blank ≡ []))
validate_invoice_crashes_example = validate_invoice_crashes (record form { country_code = blank })

-- " organizer", "CUSTOMER" and "ORGANIZER"
abbrev names : List Text
names =
    (32 ∷ 111 ∷ 114 ∷ 103 ∷ 97 ∷ 110 ∷ 105 ∷ 122 ∷ 101 ∷ 114 ∷ [])
    ∷ customer_name
    ∷ organizer_name
    ∷ []

abbrev both : List Text
both = organizer_name ∷ customer_name ∷ []

validate_roles_valid_example :
    (collect_roles [] names ≡ some both → validate_roles (many_roles names) ≡ some both)
    × (validate_roles (many_roles names) ≡ some both
        → AreAllowed both
          × AreDistinct both
          × (length both ≤ 2)
          × All (λ x. contains (normal_role x) both ≡ true) names
          × (validate_roles (many_roles both) ≡ some both))
validate_roles_valid_example = validate_roles_valid (many_roles names) both

names_pass : validate_roles (many_roles names) ≡ some both
unfolding validate_roles collect_roles is_allowed_role exists strip is_space to_upper same_text
names_pass = refl

one_passes : validate_roles (one_role customer_name) ≡ some (customer_name ∷ [])
unfolding validate_roles collect_roles is_allowed_role exists strip is_space to_upper same_text
one_passes = refl
