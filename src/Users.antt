-- ===== src/Users.antt =====
-- The changes of roles and passwords: app/services/users_service.py but for the list of users, and
-- histories of the requests of app/api/v1/routes/users.py that make them.
pub mod Roles
mod Tests
use ticketing_system.Prelude.{
  ◌&&◌, ℕ, Bool, true, false, not, List, [], ◌∷◌, Option, none, some, ◌==◌,
}
use ticketing_system.Prelude.Text.{Text, same_text}
use ticketing_system.Errors.{
  Result, ok, or_raise, raise_if, not_found, forbidden, invalid_input, unauthorized, get_db, ◌>>=◌,
  ◌>>◌,
}
use ticketing_system.Table.{scalar, exists, select, update}
use ticketing_system.Schema.{Database, Role, User, Account}
use ticketing_system.Access.{has_role, require_roles}
use ticketing_system.Auth.{Security}
use ticketing_system.Validation.{customer_name, organizer_name, contains, RolesBody, validate_roles}

abbrev pub admin_name : Text
admin_name = 65 ∷ 68 ∷ 77 ∷ 73 ∷ 78 ∷ []

-- The column `name` of the table of roles.
abbrev pub name_of : Role → Text
name_of Role.admin = admin_name
name_of Role.organizer = organizer_name
name_of Role.customer = customer_name

pub get_user_by_id : Database → ℕ → Option Account
get_user_by_id db user_id = scalar (λ (a : Account). a.user.id == user_id) db.accounts

-- `roles` is the table of roles.
pub get_roles_by_names : List Role → List Text → List Role
get_roles_by_names roles [] = []
get_roles_by_names roles (n ∷ names) = select (λ r. contains (name_of r) (n ∷ names)) roles

abbrev pub is_missing : List Role → Text → Bool
is_missing found name = not (exists (λ r. same_text (name_of r) name) found)

abbrev pub is_empty : List Text → Bool
is_empty [] = true
is_empty (n ∷ names) = false

abbrev pub with_roles : List Role → Account → Account
with_roles found a = record a { user = record (a.user) { roles = found } }

abbrev pub set_roles : Database → ℕ → List Role → Database
set_roles db user_id found = record db {
  accounts = update (λ a. a.user.id == user_id) (with_roles found) db.accounts;
}

pub update_user_roles : List Role → Database → ℕ → List Text → Result (Account × Database)
update_user_roles roles db user_id names = do
  account ← or_raise (get_user_by_id db user_id) (not_found "User not found")
  raise_if (has_role Role.admin account.user) (forbidden "Access denied")
  raise_if (is_empty names) (invalid_input "No roles specified")
  let found = get_roles_by_names roles names
  raise_if (exists (is_missing found) names) (invalid_input "Unknown roles requested")
  ok (with_roles found account, set_roles db user_id found)

pub data UserRequest : Type 0 where
  sets_roles : User → ℕ → RolesBody → UserRequest
  changes_password : ℕ → Text → Text → ℕ → UserRequest

abbrev pub with_password : Text → Account → Account
with_password hashed a = record a { password_hash = hashed }

-- A list of names that the schema refuses is answered before the service is called.
pub set_user_roles : List Role → Database → User → ℕ → Option (List Text) → Database
set_user_roles roles db user user_id none = db
set_user_roles roles db user user_id (some names) =
    (get_db db (require_roles (Role.admin ∷ []) user >> update_user_roles roles db user_id names)).1

module _ (sec : Security) where
  pub change_password : Database → Account → Text → Text → ℕ → Result (Unit {0} × Database)
  change_password db account old_password new_password salt = do
    raise_if (not (sec.verify_password old_password account.password_hash))
        (unauthorized "Old password is incorrect")
    raise_if (sec.verify_password new_password account.password_hash)
        (invalid_input "New password must be different from the current one")
    ok (
      tt,
      record db {
        accounts =
            update (λ a. a.user.id == account.user.id)
              (with_password (sec.hash_password salt new_password)) db.accounts;
      },
    )

  -- The query of get_current_user_with_roles, for the whole row.
  abbrev pub get_active_user : Database → ℕ → Option Account
  get_active_user db sub =
      scalar (λ (a : Account). a.user.id == sub && a.user.is_active) db.accounts

  -- The account that the token names, if it is there and active.
  pub change_my_password : Database → Option Account → Text → Text → ℕ → Database
  change_my_password db none old_password new_password salt = db
  change_my_password db (some account) old_password new_password salt =
      (get_db db (
        require_roles (Role.customer ∷ Role.organizer ∷ Role.admin ∷ []) account.user
        >> change_password db account old_password new_password salt)).1

  pub user_step : List Role → Database → UserRequest → Database
  user_step roles db (sets_roles user user_id names) =
      set_user_roles roles db user user_id (validate_roles names)
  user_step roles db (changes_password user_id old_password new_password salt) =
      change_my_password db (get_active_user db user_id) old_password new_password salt

  pub run_users : List Role → Database → List UserRequest → Database
  run_users roles db [] = db
  run_users roles db (r ∷ rs) = run_users roles (user_step roles db r) rs
