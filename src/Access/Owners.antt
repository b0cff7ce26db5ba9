-- ===== src/Access/Owners.antt =====
-- What the checks of ownership let through.
use ticketing_system.Prelude.{
  ℕ, ◌≡◌, Bool, true, false, not, ◌&&◌, ◌||◌, some, arith, ◌==◌, refl, [], ◌∷◌, Bool-cases, inl,
  inr,
}
use ticketing_system.Errors.{
  Ensures, Ensures-bind, Ensures-raise_if, returned, or_raise, or_raise_ok, raised,
}
use ticketing_system.Table.{scalar, exists}
use ticketing_system.Schema.{Database, Event, Role, User}
use ticketing_system.Access.{has_role, is_member, ensure_event_owner, require_roles}

pub ensure_event_owner-row :
    (db : Database) (event_id : ℕ) (user : User)
    → Ensures
        (λ old. scalar (λ r. r.id == event_id) db.events ≡ some old)
        (ensure_event_owner db event_id user)
unfolding ensure_event_owner
ensure_event_owner-row db event_id user =
    Ensures-bind (or_raise (scalar (λ e. e.id == event_id) db.events) _) _ λ old found.
      Ensures-raise_if (not (has_role Role.admin user) && not (is_member old.organizer_id user)) _ _
        λ _. returned (or_raise_ok _ _ _ found)

pub ensure_event_owner-allowed :
    (db : Database) (event_id : ℕ) (user : User)
    → Ensures
        (λ (e : Event). (has_role Role.admin user || is_member e.organizer_id user) ≡ true)
        (ensure_event_owner db event_id user)
unfolding ensure_event_owner
ensure_event_owner-allowed db event_id user =
    Ensures-bind (or_raise (scalar (λ e. e.id == event_id) db.events) _) _ λ old found.
      Ensures-raise_if (not (has_role Role.admin user) && not (is_member old.organizer_id user)) _ _
        λ allowed.
          returned (either (has_role Role.admin user) (is_member old.organizer_id user) allowed)
  where
    either : (a b : Bool) → (not a && not b) ≡ false → (a || b) ≡ true
    either a b h = ground arith

-- The check of roles for admins alone.
pub require_roles-admin :
    (user : User)
    → Ensures (λ _. has_role Role.admin user ≡ true) (require_roles (Role.admin ∷ []) user)
unfolding require_roles exists
require_roles-admin user = elim (Bool-cases (has_role Role.admin user)) [
  | inl admin ↦ rw admin (returned refl)
  | inr other ↦ rw other raised
]
