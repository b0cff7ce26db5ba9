-- ===== src/Access.antt =====
-- Who may do what: `get_current_user_with_roles` of app/core/dependencies/auth.py and the checks of
-- app/core/dependencies/events.py. The verified token gives the user's id.
pub mod Owners
use ticketing_system.Prelude.{ℕ, Bool, true, false, not, ◌&&◌, List, [], ◌∷◌, ◌==◌, if◌then◌else◌}
use ticketing_system.Errors.{
  Result, ok, ◌>>=◌, ◌>>◌, raise_if, or_raise, not_found, unauthorized, forbidden,
}
use ticketing_system.Table.{scalar, exists}
use ticketing_system.Schema.{Database, User, Role, Event, EventSector, EventTicketType, is_role}

-- "NAME" in {r.name for r in user.roles}
abbrev pub has_role : Role → User → Bool
has_role role user = exists (is_role role) user.roles

-- organizer_id in {o.id for o in user.organizers}
abbrev pub is_member : ℕ → User → Bool
is_member organizer_id user = exists (λ i. i == organizer_id) user.organizers

abbrev is_given : List Role → Bool
is_given [] = false
is_given (r ∷ rs) = true

-- not roles.isdisjoint(allowed)
abbrev pub has_one_of : List Role → User → Bool
has_one_of allowed user = exists (λ r. has_role r user) allowed

-- if allowed and roles.isdisjoint(allowed)
pub require_roles : List Role → User → Result (Unit {0})
require_roles allowed user =
    raise_if (is_given allowed && not (has_one_of allowed user)) (forbidden "Permission denied")

pub get_current_user_with_roles : List Role → List User → ℕ → Result User
get_current_user_with_roles allowed users sub = do
  user ← or_raise (scalar (λ u. u.id == sub && u.is_active) users) (unauthorized "User not found")
  require_roles allowed user
  ok user

pub ensure_event_owner : Database → ℕ → User → Result Event
ensure_event_owner db event_id user = do
  event ← or_raise (scalar (λ e. e.id == event_id) db.events) (not_found "Event not found")
  raise_if (not (has_role Role.admin user) && not (is_member event.organizer_id user))
      (forbidden "Not allowed")
  ok event

pub require_organizer_member : ℕ → User → Result ℕ
require_organizer_member organizer_id user = do
  raise_if (not (has_role Role.admin user) && not (is_member organizer_id user))
      (forbidden "Not allowed")
  ok organizer_id

-- The ticket type with the event of its sector, by a join of the two tables.
unfoldable pub require_event_ticket_type_access : Database → ℕ → User → Result EventTicketType
require_event_ticket_type_access db event_ticket_type_id user = do
  ett ←
      or_raise
        (scalar
          (λ e.
            e.id == event_ticket_type_id
            && exists (λ s. s.id == e.event_sector_id) db.event_sectors)
          db.event_ticket_types)
        (not_found "Event ticket type not found")
  sector ←
      or_raise (scalar (λ s. s.id == ett.event_sector_id) db.event_sectors)
        (not_found "Event ticket type not found")
  event ← ensure_event_owner db sector.event_id user
  ok ett
