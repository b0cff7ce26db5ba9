-- ===== src/Validation.antt =====
-- What the schemas make of a request's body: app/core/utils/text_utils.py, core/utils/validators.py,
-- the invoice form of domain/booking/schemas.py and the roles and passwords of
-- domain/users/schemas.py. Letters and digits are those of ASCII.
pub mod Fields
pub mod Settled
pub mod Invoice
pub mod Roles
mod Tests
use ticketing_system.Prelude.{
  ℕ, ◌+◌, Bool, true, false, not, ◌&&◌, ◌||◌, List, [], ◌∷◌, ◌++◌, Option, none, some, leb, ◌==◌,
  length, if◌then◌else◌, String, is_some,
}
use ticketing_system.Prelude.Text.{Text, strip, upper, same_text, is_lower, is_upper, is_space}
use ticketing_system.Schema.{InvoiceType}
use ticketing_system.Table.{exists}

-- What pydantic answers: a model, a validation error (HTTP 422), or an exception of another kind that a
-- validator raised, which it does not catch.
pub data Checked {ℓ} (A : Type ℓ) : Type ℓ where
  valid : A → Checked A
  rejected crashed : Checked A

infixl 5 ◌>>=◌
abbrev pub ◌>>=◌ {ℓ κ} : {A : Type ℓ} {B : Type κ} → Option A → (A → Option B) → Option B
none >>= next = none
some a >>= next = next a

-- value or None
abbrev pub or_none : Text → Option Text
or_none [] = none
or_none (c ∷ s) = some (c ∷ s)

pub strip_text : Option Text → Option Text
strip_text none = none
strip_text (some value) = or_none (strip value)

-- Field(min_length=lo, max_length=hi)
abbrev pub has_length : ℕ → ℕ → Text → Bool
has_length lo hi s = leb lo (length s) && leb (length s) hi

-- A field that may be None.
abbrev pub check_optional : ℕ → ℕ → (Text → Bool) → Option Text → Option (Option Text)
check_optional lo hi fits none = some none
check_optional lo hi fits (some s) = if has_length lo hi s && fits s then some (some s) else none

-- A field that may not.
abbrev pub check_required : ℕ → ℕ → (Text → Bool) → Option Text → Option Text
check_required lo hi fits none = none
check_required lo hi fits (some s) = if has_length lo hi s && fits s then some s else none

pub optional_field : ℕ → ℕ → (Text → Bool) → Option Text → Option (Option Text)
optional_field lo hi fits value = check_optional lo hi fits (strip_text value)

pub required_field : ℕ → ℕ → (Text → Bool) → Text → Option Text
required_field lo hi fits value = check_required lo hi fits (strip_text (some value))

abbrev pub any_text : Text → Bool
any_text s = true

abbrev pub all_of : (ℕ → Bool) → Text → Bool
all_of p [] = true
all_of p (c ∷ s) = p c && all_of p s

abbrev pub is_digit : ℕ → Bool
is_digit c = leb b'0' c && leb c b'9'

-- ^[A-Z0-9\-]+$
abbrev pub is_tax_char : ℕ → Bool
is_tax_char c = is_upper c || (is_digit c || c == b'-')

-- InvoiceUpsertDTO: the body, and after validation the model.
pub record InvoiceForm : Type 0 where
  pub invoice_type : InvoiceType
  pub full_name : Option Text
  pub company_name : Option Text
  pub tax_id : Option Text
  pub street : Text
  pub postal_code : Text
  pub city : Text
  pub country_code : Text

-- `strip_text(v).upper() if v else v`: None has no attribute `upper`.
pub country_code_crashes : Text → Bool
country_code_crashes [] = false
country_code_crashes (c ∷ s) = not (is_some (strip_text (some (c ∷ s))))

abbrev upper_or_empty : Option Text → Text
upper_or_empty none = []
upper_or_empty (some s) = upper s

pub country_field : Text → Option Text
country_field value =
    check_required 2 2 (all_of is_upper) (some (upper_or_empty (strip_text (some value))))

-- `not value` of an optional text
abbrev pub is_filled : Option Text → Bool
is_filled none = false
is_filled (some []) = false
is_filled (some (c ∷ s)) = true

abbrev pub upper_some : Option Text → Option Text
upper_some none = none
upper_some (some s) = some (upper s)

abbrev pub check_type : InvoiceType → InvoiceForm → Option InvoiceForm
check_type InvoiceType.company form =
    if not (is_filled form.company_name) || not (is_filled form.tax_id)
    then none
    else some (record form { full_name = none; tax_id = upper_some form.tax_id })
check_type InvoiceType.person form =
    if not (is_filled form.full_name)
    then none
    else some (record form { company_name = none; tax_id = none })

pub check_person_or_company : InvoiceForm → Option InvoiceForm
check_person_or_company form = check_type form.invoice_type form

pub check_fields : InvoiceForm → Option InvoiceForm
check_fields form = do
  full_name ← optional_field 3 200 any_text form.full_name
  company_name ← optional_field 2 200 any_text form.company_name
  tax_id ← optional_field 6 32 (all_of is_tax_char) form.tax_id
  street ← required_field 2 200 any_text form.street
  postal_code ← required_field 4 12 any_text form.postal_code
  city ← required_field 2 100 any_text form.city
  country_code ← country_field form.country_code
  check_person_or_company (record {
    invoice_type = form.invoice_type;
    full_name = full_name;
    company_name = company_name;
    tax_id = tax_id;
    street = street;
    postal_code = postal_code;
    city = city;
    country_code = country_code;
  })

abbrev pub or_rejected {ℓ} : {A : Type ℓ} → Option A → Checked A
or_rejected none = rejected
or_rejected (some a) = valid a

-- An exception of a validator ends the validation of the other fields.
pub validate_invoice : InvoiceForm → Checked InvoiceForm
validate_invoice form =
    if country_code_crashes form.country_code then crashed else or_rejected (check_fields form)

-- TicketHolderUpsertDTO
pub record HolderForm : Type 0 where
  pub first_name : Text
  pub last_name : Text
  pub birth_date : ℕ
  pub identification_number : Text

pub validate_holder : HolderForm → Option HolderForm
validate_holder form = do
  first_name ← required_field 2 200 any_text form.first_name
  last_name ← required_field 2 200 any_text form.last_name
  identification_number ← required_field 6 100 any_text form.identification_number
  some (record {
    first_name = first_name;
    last_name = last_name;
    birth_date = form.birth_date;
    identification_number = identification_number;
  })

-- [^\w\s]
abbrev pub is_special : ℕ → Bool
is_special c = not (is_lower c || (is_upper c || (is_digit c || c == b'_'))) && not (is_space c)

abbrev pub needs : Bool → String → List String
needs true what = []
needs false what = what ∷ []

-- `errors` in check_password_strength
pub missing_kinds : Text → List String
missing_kinds password =
    needs (exists is_lower password) "a lowercase letter"
    ++ (needs (exists is_upper password) "an uppercase letter"
        ++ (needs (exists is_digit password) "a digit"
            ++ needs (exists is_special password) "a special character"))

abbrev is_empty : List String → Bool
is_empty [] = true
is_empty (e ∷ es) = false

pub check_password_strength : Text → Bool
check_password_strength password = is_empty (missing_kinds password)

-- The password fields of UserCreateDTO and PasswordChangeDTO.
pub validate_password : Text → Text → Option Text
validate_password password confirm =
    if has_length 8 64 password
      && check_password_strength password
      && (has_length 8 64 confirm && same_text password confirm)
    then some password
    else none

-- "CUSTOMER" and "ORGANIZER"
abbrev pub customer_name : Text
customer_name = b'C' ∷ b'U' ∷ b'S' ∷ b'T' ∷ b'O' ∷ b'M' ∷ b'E' ∷ b'R' ∷ []

abbrev pub organizer_name : Text
organizer_name = b'O' ∷ b'R' ∷ b'G' ∷ b'A' ∷ b'N' ∷ b'I' ∷ b'Z' ∷ b'E' ∷ b'R' ∷ []

-- ALLOWED_ROLES
unfoldable pub is_allowed_role : Text → Bool
is_allowed_role name = same_text name customer_name || same_text name organizer_name

abbrev pub contains : Text → List Text → Bool
contains name names = exists (λ n. same_text n name) names

-- The loop of UserRolesUpdateDTO._normalize; `out` holds what `seen` does.
pub collect_roles : List Text → List Text → Option (List Text)
collect_roles out [] = some out
collect_roles out (x ∷ xs) =
    let n = upper (strip x) in
    let rest = collect_roles (if contains n out then out else out ++ n ∷ []) xs in
    if is_allowed_role n then rest else none

-- The field `roles` of a body: left out or null, one string, or a list of strings.
pub data RolesBody : Type 0 where
  no_roles : RolesBody
  one_role : Text → RolesBody
  many_roles : List Text → RolesBody

-- v as the list that the loop reads; the default of the field is the empty list.
abbrev pub entries : RolesBody → List Text
entries no_roles = []
entries (one_role v) = v ∷ []
entries (many_roles v) = v

-- The field `roles`, with its max_length.
pub validate_roles : RolesBody → Option (List Text)
validate_roles body = do
  out ← collect_roles [] (entries body)
  if leb (length out) 2 then some out else none
