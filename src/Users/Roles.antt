-- ===== src/Users/Roles.antt =====
-- Who is an administrator stays so, and nobody becomes one.
use ticketing_system.Prelude.{
  ℕ, ◌≡◌, refl, Bool, true, false, not, ◌&&◌, List, [], ◌∷◌, Option, none, some, arith, ◌==◌, All,
  Bool-cases, inl, inr, ◌∙◌, subst, ==_iff,
}
use ticketing_system.Prelude.Text.{Text, same_text, same_text_eq}
use ticketing_system.Errors.{
  or_raise, Ensures, Ensures-raise_if, Ensures-bind, returned, get_db-Keeps, or_raise_ok,
}
use ticketing_system.Table.{scalar, exists, select, update, Unique}
use ticketing_system.Table.Laws.{All-map}
use ticketing_system.Table.Keys.{Unique-update}
use ticketing_system.Table.Replace.{Unique-scalar}
use ticketing_system.Schema.{Database, Role, User, Account, is_role}
use ticketing_system.Access.{has_role, require_roles}
use ticketing_system.Auth.{Security}
use ticketing_system.Validation.{
  customer_name, organizer_name, is_allowed_role, contains, RolesBody, validate_roles,
}
use ticketing_system.Validation.Roles.{AreAllowed, validate_roles_valid}
use ticketing_system.Users.{
  admin_name, name_of, get_user_by_id, get_roles_by_names, is_missing, is_empty, with_roles,
  set_roles, update_user_roles, UserRequest, sets_roles, changes_password, with_password,
  change_password, set_user_roles, get_active_user, change_my_password, user_step, run_users,
}

-- Some account of this key has the role ADMIN.
abbrev pub is_admin : Database → ℕ → Bool
is_admin db k = exists (λ (a : Account). a.user.id == k && has_role Role.admin a.user) db.accounts

abbrev pub HaveKeys : Database → Type 0
HaveKeys db = Unique (λ (a : Account). a.user.id) db.accounts

-- What a request leaves: the keys, and for every key whether it is an administrator's.
pub record KeepsAdmins (db db' : Database) : Type 0 where
  pub keys : HaveKeys db'
  pub admins : (k : ℕ) → is_admin db' k ≡ is_admin db k

KeepsAdmins-refl : (db : Database) → HaveKeys db → KeepsAdmins db db
KeepsAdmins-refl db u = record { keys = u; admins = λ k. refl }

admin_refused : (n : Text) → is_allowed_role n ≡ true → same_text n admin_name ≡ false
unfolding is_allowed_role same_text
admin_refused n h = elim (Bool-cases (same_text n customer_name)) [
  | inl same ↦ rw (same_text_eq n customer_name same) refl
  | inr other ↦ rw (same_text_eq n organizer_name (ground (arith, h, other))) refl
]

not_contained : (names : List Text) → AreAllowed names → contains admin_name names ≡ false
unfolding exists
not_contained [] h = refl
not_contained (n ∷ names) h = rw (admin_refused n h.0, not_contained names h.1) refl

no_admin_selected :
    (q : Role → Bool) (roles : List Role)
    → q Role.admin ≡ false
    → exists (is_role Role.admin) (select q roles) ≡ false
unfolding exists select
no_admin_selected q [] h = refl
no_admin_selected q (Role.admin ∷ roles) h = rw h (no_admin_selected q roles h)
no_admin_selected q (Role.organizer ∷ roles) h = ground (arith, no_admin_selected q roles h)
no_admin_selected q (Role.customer ∷ roles) h = ground (arith, no_admin_selected q roles h)

found_no_admin :
    (roles : List Role) (names : List Text)
    → AreAllowed names
    → exists (is_role Role.admin) (get_roles_by_names roles names) ≡ false
unfolding get_roles_by_names exists
found_no_admin roles [] h = refl
found_no_admin roles (n ∷ names) h =
    no_admin_selected (λ r. contains (name_of r) (n ∷ names)) roles (not_contained (n ∷ names) h)

exists-update_same {ℓ} :
    {A : Type ℓ} (q p : A → Bool) (f : A → A) (rs : List A)
    → All (λ r. p r ≡ true → q (f r) ≡ q r) rs
    → exists q (update p f rs) ≡ exists q rs
unfolding exists update
exists-update_same q p f [] h = refl
exists-update_same q p f (r ∷ rs) h = elim (Bool-cases (p r)) [
  | inl hit ↦ rw (hit, h.0 hit, exists-update_same q p f rs h.1) refl
  | inr miss ↦ rw (miss, exists-update_same q p f rs h.1) refl
]

validated :
    (body : RolesBody) (checked : List Text)
    → validate_roles body ≡ some checked
    → AreAllowed checked
validated body checked e = ((validate_roles_valid body checked).1 e).0

module _ (db : Database) (u : HaveKeys db) where
  -- New roles without ADMIN for a user who has not that role.
  set_roles-KeepsAdmins :
      (user_id : ℕ) (a : Account) (found : List Role)
      → get_user_by_id db user_id ≡ some a
      → has_role Role.admin a.user ≡ false
      → exists (is_role Role.admin) found ≡ false
      → KeepsAdmins db (set_roles db user_id found)
  unfolding get_user_by_id
  set_roles-KeepsAdmins user_id a found there plain refused = record {
    keys =
        Unique-update (λ (x : Account). x.user.id) _ (with_roles found) db.accounts
          (λ x. ground arith) u;
    admins = λ k. exists-update_same _ _ (with_roles found) db.accounts (
        All-map _ _ db.accounts
          (λ x (named : scalar (λ (y : Account). y.user.id == x.user.id) db.accounts ≡ some x) hit.
            let key : x.user.id ≡ user_id = (==_iff x.user.id user_id).0 hit in
            let found_x =
              subst (λ i. scalar (λ (y : Account). y.user.id == i) db.accounts ≡ some x) key
                named in
            let same : x ≡ a = cc (found_x, there) in
            let not_admin : has_role Role.admin x.user ≡ false = rw same plain in
            rw (refused, not_admin) refl)
          (Unique-scalar (λ (x : Account). x.user.id) db.accounts u));
  }

  password-KeepsAdmins :
      (p : Account → Bool) (hashed : Text)
      → KeepsAdmins db (record db { accounts = update p (with_password hashed) db.accounts })
  password-KeepsAdmins p hashed = record {
    keys =
        Unique-update (λ (x : Account). x.user.id) p (with_password hashed) db.accounts
          (λ x. ground arith) u;
    admins = λ k. exists-update_same _ p (with_password hashed) db.accounts (
        All-map _ _ db.accounts (λ x _ _. refl)
          (Unique-scalar (λ (x : Account). x.user.id) db.accounts u));
  }

  change_password-KeepsAdmins :
      (sec : Security) (a : Account) (old_password new_password : Text) (salt : ℕ)
      → Ensures (λ r. KeepsAdmins db r.1) (change_password sec db a old_password new_password salt)
  unfolding change_password
  change_password-KeepsAdmins sec a old_password new_password salt =
      Ensures-raise_if (not (sec.verify_password old_password a.password_hash)) _ _ λ _.
        Ensures-raise_if (sec.verify_password new_password a.password_hash) _ _
          λ _. returned (password-KeepsAdmins _ (sec.hash_password salt new_password))

  update_user_roles-KeepsAdmins :
      (roles : List Role) (user_id : ℕ) (names : List Text)
      → AreAllowed names
      → Ensures (λ r. KeepsAdmins db r.1) (update_user_roles roles db user_id names)
  unfolding update_user_roles
  update_user_roles-KeepsAdmins roles user_id names allowed =
      Ensures-bind (or_raise (get_user_by_id db user_id) _) _ λ a found.
        Ensures-raise_if (has_role Role.admin a.user) _ _ λ plain.
          Ensures-raise_if (is_empty names) _ _ λ _.
            Ensures-raise_if (exists (is_missing (get_roles_by_names roles names)) names) _ _ λ _.
              returned (
                set_roles-KeepsAdmins user_id a (get_roles_by_names roles names)
                  (or_raise_ok _ _ a found) plain (found_no_admin roles names allowed))

  set_user_roles-KeepsAdmins :
      (roles : List Role) (user : User) (user_id : ℕ) (checked : Option (List Text))
      → ((names : List Text) → checked ≡ some names → AreAllowed names)
      → KeepsAdmins db (set_user_roles roles db user user_id checked)
  unfolding set_user_roles
  set_user_roles-KeepsAdmins roles user user_id none h = KeepsAdmins-refl db u
  set_user_roles-KeepsAdmins roles user user_id (some names) h =
      get_db-Keeps (KeepsAdmins db) db _ (KeepsAdmins-refl db u) (
        Ensures-bind (require_roles (Role.admin ∷ []) user) _
          λ _ _. update_user_roles-KeepsAdmins roles user_id names (h names refl))

  change_my_password-KeepsAdmins :
      (sec : Security) (account : Option Account) (old_password new_password : Text) (salt : ℕ)
      → KeepsAdmins db (change_my_password sec db account old_password new_password salt)
  unfolding change_my_password
  change_my_password-KeepsAdmins sec none old_password new_password salt = KeepsAdmins-refl db u
  change_my_password-KeepsAdmins sec (some a) old_password new_password salt =
      get_db-Keeps (KeepsAdmins db) db _ (KeepsAdmins-refl db u) (
        Ensures-bind (require_roles _ a.user) _
          λ _ _. change_password-KeepsAdmins sec a old_password new_password salt)

  user_step-KeepsAdmins :
      (sec : Security) (roles : List Role) (r : UserRequest)
      → KeepsAdmins db (user_step sec roles db r)
  unfolding user_step
  user_step-KeepsAdmins sec roles (sets_roles user user_id body) =
      set_user_roles-KeepsAdmins roles user user_id (validate_roles body) (validated body)
  user_step-KeepsAdmins sec roles (changes_password user_id old_password new_password salt) =
      change_my_password-KeepsAdmins sec (get_active_user sec db user_id) old_password new_password
        salt

-- Whatever requests set roles and change passwords, and whatever names of roles they give, if no two
-- accounts have one key: whoever is an administrator stays one and nobody becomes one.
pub run_users-KeepsAdmins :
    (sec : Security) (roles : List Role) (db : Database) (rs : List UserRequest)
    → HaveKeys db
    → KeepsAdmins db (run_users sec roles db rs)
unfolding run_users
run_users-KeepsAdmins sec roles db [] u = KeepsAdmins-refl db u
run_users-KeepsAdmins sec roles db (r ∷ rs) u =
    let first = user_step-KeepsAdmins db u sec roles r in
    let rest = run_users-KeepsAdmins sec roles (user_step sec roles db r) rs first.keys in
    record { keys = rest.keys; admins = λ k. rest.admins k ∙ first.admins k }
