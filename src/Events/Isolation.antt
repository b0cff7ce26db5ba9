-- ===== src/Events/Isolation.antt =====
-- Organizers and the events of others.
use ticketing_system.Prelude.{
  ℕ, ◌≡◌, refl, Bool, true, false, ◌||◌, List, [], ◌∷◌, some, arith, ◌==◌, Bool-cases, inl, inr,
  subst, sym, ap, ◌∙◌, ==_iff, All,
}
use ticketing_system.Errors.{
  Ensures, Ensures-bind, returned, get_db-Keeps, on_integrity_error, Ensures_ok,
}
use ticketing_system.Table.{scalar}
use ticketing_system.Table.Laws.{scalar-append}
use ticketing_system.Table.Replace.{scalar-replace_other}
use ticketing_system.Schema.{Database, Event, Role, User}
use ticketing_system.Access.Owners.{
  ensure_event_owner-row, ensure_event_owner-allowed, require_roles-admin,
}
use ticketing_system.Access.{
  has_role, is_member, ensure_event_owner, require_organizer_member, require_roles,
}
use ticketing_system.Events.{
  EventCreate, EventUpdate, write_event, validate_event_times_on_create,
  validate_event_times_on_update, get_venue, flush_event, flush_new_event, create_event,
  update_event, EventRequest, creates, patches, sets_status, create_event_as, patch_event,
  patch_event_status, event_step, run_events,
}
use ticketing_system.Events.History.{row_of}

abbrev pub user_of : EventRequest → User
user_of (creates user organizer_id schema) = user
user_of (patches user event_id schema now) = user
user_of (sets_status user event_id status) = user

-- The request comes from a user who is no admin and no member of the organizer.
abbrev pub IsStranger : ℕ → EventRequest → Type 0
IsStranger organizer_id r =
    (has_role Role.admin (user_of r) ≡ false) × (is_member organizer_id (user_of r) ≡ false)

denied : {P : Type 0} (a b : Bool) → a ≡ false → b ≡ false → (a || b) ≡ true → P
denied a b ha hb h = absurd (ground (arith, ha, hb, h))

module _ (k : ℕ) (e : Event) where
  abbrev IsUntouched : Database → Type 0
  IsUntouched db = scalar (λ r. r.id == k) db.events ≡ some e

  update_event-IsUntouched :
      (db : Database) (schema : EventUpdate) (old : Event) (now : ℕ)
      → (old.id == k) ≡ false
      → IsUntouched db
      → Ensures (λ (r : Event × Database). IsUntouched r.1) (update_event db schema old now)
  unfolding update_event
  update_event-IsUntouched db schema old now other row =
      Ensures-bind (validate_event_times_on_update schema old now) _ λ _ _.
        Ensures-bind (on_integrity_error (flush_event (write_event schema old)) _) _ λ _ _.
          returned (
            scalar-replace_other (λ r. r.id) old.id k (write_event schema old) db.events refl other
            ∙ row)

  create_event-IsUntouched :
      (db : Database) (organizer_id : ℕ) (schema : EventCreate)
      → IsUntouched db
      → Ensures (λ (r : Event × Database). IsUntouched r.1) (create_event db organizer_id schema)
  unfolding create_event
  create_event-IsUntouched db organizer_id schema row =
      Ensures-bind (get_venue db schema.venue_id) _ λ _ _.
        Ensures-bind (validate_event_times_on_create schema) _ λ _ _.
          Ensures-bind (on_integrity_error (flush_new_event db _) _) _
            λ _ _. returned (scalar-append _ db.events _ e row)

  event_step-IsUntouched :
      (db : Database) (r : EventRequest)
      → IsStranger e.organizer_id r
      → IsUntouched db
      → IsUntouched (event_step db r)
  unfolding event_step create_event_as patch_event patch_event_status
  event_step-IsUntouched db (creates user organizer_id schema) stranger row =
      get_db-Keeps IsUntouched db _ row (
        Ensures-bind (require_roles (Role.admin ∷ Role.organizer ∷ []) user) _ λ _ _.
          Ensures-bind (require_organizer_member organizer_id user) _
            λ id _. create_event-IsUntouched db id schema row)
  event_step-IsUntouched db (patches user event_id schema now) stranger row =
      get_db-Keeps IsUntouched db _ row (
        Ensures-bind (require_roles (Role.admin ∷ Role.organizer ∷ []) user) _ λ _ _.
          Ensures-bind (ensure_event_owner db event_id user) _ λ old found.
            elim (Bool-cases (old.id == k)) [
              | inl hit ↦
                  let old_row =
                    row_of db event_id old
                      (Ensures_ok _ (ensure_event_owner-row db event_id user) found) in
                  let at_k =
                    subst (λ j. scalar (λ r. r.id == j) db.events ≡ some old)
                      ((==_iff old.id k).0 hit) old_row in
                  let same : old ≡ e = cc in
                  let allowed = Ensures_ok _ (ensure_event_owner-allowed db event_id user) found in
                  (denied (has_role Role.admin user) (is_member old.organizer_id user) stranger.0
                    (subst (λ d. is_member d.organizer_id user ≡ false) (sym same) stranger.1)
                    allowed)
              | inr miss ↦ update_event-IsUntouched db schema old now miss row
            ])
  event_step-IsUntouched db (sets_status user event_id status) stranger row =
      get_db-Keeps IsUntouched db _ row (
        Ensures-bind (require_roles (Role.admin ∷ []) user) _ λ _ admitted.
          (denied (has_role Role.admin user) false stranger.0 refl
            (ap (λ b. b || false) (Ensures_ok _ (require_roles-admin user) admitted))))

-- Requests of users who are no admins and belong to other organizers leave an event as it is,
-- whatever they ask for and in whatever order.
pub run_events_isolated :
    (k : ℕ) (e : Event) (db : Database) (rs : List EventRequest)
    → All (IsStranger e.organizer_id) rs
    → scalar (λ r. r.id == k) db.events ≡ some e
    → scalar (λ r. r.id == k) (run_events db rs).events ≡ some e
unfolding run_events
run_events_isolated k e db [] strangers row = row
run_events_isolated k e db (r ∷ rs) strangers row =
    run_events_isolated k e (event_step db r) rs strangers.1
      (event_step-IsUntouched k e db r strangers.0 row)
