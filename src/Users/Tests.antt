-- ===== src/Users/Tests.antt =====
-- Account 1 is a customer's and account 2 an administrator's.
use ticketing_system.Prelude.{◌≡◌, refl, true, List, [], ◌∷◌, none, ℕ}
use ticketing_system.Prelude.Text.{same_text}
use ticketing_system.Errors.{err, forbidden, invalid_input}
use ticketing_system.Table.{scalar, exists, select}
use ticketing_system.Schema.{Database, Account, Role}
use ticketing_system.Auth.{Security}
use ticketing_system.Validation.{customer_name, organizer_name, one_role, many_roles}
use ticketing_system.Samples.{start}
use ticketing_system.Users.{
  admin_name, UserRequest, sets_roles, changes_password, update_user_roles, get_user_by_id,
  get_roles_by_names, run_users,
}
use ticketing_system.Users.Roles.{KeepsAdmins, run_users-KeepsAdmins}

abbrev account : ℕ → List Role → Account
account k roles = record {
  user = record { id = k; is_active = true; roles = roles; organizers = [] };
  email = k ∷ [];
  phone_number = none;
  first_name = [];
  last_name = [];
  password_hash = 112 ∷ [];
  birth_date = none;
}

abbrev two_users : Database
two_users = record start {
  accounts = account 1 (Role.customer ∷ []) ∷ account 2 (Role.admin ∷ []) ∷ [];
}

abbrev all_roles : List Role
all_roles = Role.admin ∷ Role.organizer ∷ Role.customer ∷ []

-- A hash that keeps the password.
abbrev plain : Security
plain = record {
  hash_password = λ salt password. password;
  verify_password = λ password hashed. same_text password hashed;
  hash_refresh_token = λ token. token;
}

admin_kept :
    update_user_roles all_roles two_users 2 (customer_name ∷ []) ≡ err (forbidden "Access denied")
unfolding update_user_roles get_user_by_id scalar exists
admin_kept = refl

unknown_role :
    update_user_roles (Role.customer ∷ []) two_users 1 (organizer_name ∷ [])
    ≡ err (invalid_input "Unknown roles requested")
unfolding update_user_roles get_user_by_id get_roles_by_names scalar exists select same_text
unknown_role = refl

abbrev requests : List UserRequest
requests =
    sets_roles (account 2 (Role.admin ∷ [])).user 1 (many_roles (organizer_name ∷ []))
    ∷ sets_roles (account 2 (Role.admin ∷ [])).user 1 (one_role admin_name)
    ∷ changes_password 1 (112 ∷ []) (113 ∷ []) 5
    ∷ []

run_users-KeepsAdmins_example : KeepsAdmins two_users (run_users plain all_roles two_users requests)
unfolding exists
run_users-KeepsAdmins_example =
    run_users-KeepsAdmins plain all_roles two_users requests (refl, (refl, tt))
