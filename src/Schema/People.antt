-- ===== src/Schema/People.antt =====
-- Who acts: app/domain/users/models.py, organizers/models.py, auth/models.py and addresses/models.py,
-- with the link tables of app/domain/associations.py as lists in the user.
use ticketing_system.Prelude.{ℕ, Bool, true, false, String, Option, List}
use ticketing_system.Prelude.Text.{Text}

-- The names of roles that the program tests.
pub data Role : Type 0 where
  admin organizer customer : Role

pub record Organizer : Type 0 where
  pub id : ℕ
  pub name : String
  pub email : String
  pub phone_number : String
  pub address_id : ℕ
  pub vat_number : Option String
  pub registration_number : Option String
  pub iban : Option String
  pub country_code : String
  pub is_active : Bool

-- The columns that access control reads, the roles and the organizers' ids.
pub record User : Type 0 where
  pub id : ℕ
  pub is_active : Bool
  pub roles : List Role
  pub organizers : List ℕ

-- The row of `users` with its other columns.
pub record Account : Type 0 where
  pub user : User
  pub email : Text
  pub phone_number : Option Text
  pub first_name : Text
  pub last_name : Text
  pub password_hash : Text
  pub birth_date : Option ℕ

-- A hash of a token is the number that its hexadecimal digits denote.
pub record AuthRefreshSession : Type 0 where
  pub id : ℕ
  pub user_id : ℕ
  pub token_hash : ℕ
  pub created_at : ℕ
  pub last_used_at : Option ℕ
  pub expires_at : ℕ
  pub revoked_at : Option ℕ
  pub ip : Option String
  pub user_agent : Option String

pub record Address : Type 0 where
  pub id : ℕ
  pub city : String
  pub street : String
  pub postal_code : String
  pub building_number : String
  pub apartment_number : Option String
  pub country_code : String

module _ where
  -- role.name == r
  abbrev pub is_role : Role → Role → Bool
  is_role Role.admin Role.admin = true
  is_role Role.organizer Role.organizer = true
  is_role Role.customer Role.customer = true
  is_role _ _ = false
