-- ===== src/Events/History.antt =====
-- What happens to an event in a history of requests.
use ticketing_system.Prelude.{
  ℕ, ◌≡◌, refl, List, [], ◌∷◌, some, arith, ◌==◌, Option-cases, Bool-cases, inl, inr, subst, sym,
  ◌∙◌, ==_iff,
}
use ticketing_system.Errors.{
  Ensures, Ensures-bind, Ensures-map, returned, raised, get_db-Keeps, on_integrity_error,
  Ensures_ok,
}
use ticketing_system.Table.{scalar, update}
use ticketing_system.Table.Laws.{scalar-append, scalar_holds}
use ticketing_system.Table.Replace.{scalar-replace_other, scalar-replaced}
use ticketing_system.Schema.{Database, Event, EventStatus, Role}
use ticketing_system.Access.Owners.{ensure_event_owner-row}
use ticketing_system.Access.{ensure_event_owner, require_organizer_member, require_roles}
use ticketing_system.Events.{
  EventCreate, EventUpdate, write_event, validate_event_times_on_create,
  validate_event_times_on_update, get_venue, flush_event, flush_new_event, save_event, create_event,
  update_event, update_event_status, EventRequest, creates, patches, sets_status, create_event_as,
  patch_event, patch_event_status, event_step, run_events,
}
use ticketing_system.Events.Status.{Evolves, stays, then_moves, moved, update_event_status-Moves}

Evolves-trans : {s t u : EventStatus} → Evolves s t → Evolves t u → Evolves s u
Evolves-trans p stays = p
Evolves-trans p (then_moves q m) = then_moves (Evolves-trans p q) m

-- The event of this key, which was e, is there with a status that e's leads to.
abbrev pub HasEvolved : ℕ → Event → Database → Type 0
HasEvolved k e db =
    (e' : Event) × ((scalar (λ r. r.id == k) db.events ≡ some e') × Evolves e.status e'.status)

module _ (k : ℕ) (db : Database) where
  save_event-HasEvolved :
      (e old new : Event)
      → scalar (λ r. r.id == k) db.events ≡ some e
      → scalar (λ r. r.id == old.id) db.events ≡ some old
      → new.id ≡ old.id
      → Evolves old.status new.status
      → HasEvolved k e (save_event db new)
  save_event-HasEvolved e old new e_row row same p = elim (Bool-cases (new.id == k)) [
    | inl hit ↦
        let k_new : new.id ≡ k = (==_iff new.id k).0 hit in
        let k_old : k ≡ old.id = ground (arith, k_new, same) in
        let e_there = subst (λ j. scalar (λ r. r.id == j) db.events ≡ some e) k_old e_row in
        let here : old ≡ e = cc in
        let there = subst (λ j. scalar (λ r. r.id == j) db.events ≡ some old) (sym same) row in
        (
          new,
          (
            subst
                (λ j.
                  scalar (λ r. r.id == j) (update (λ r. r.id == new.id) (λ _. new) db.events)
                  ≡ some new)
                k_new (scalar-replaced (λ r. r.id) new.id old new db.events there refl),
            subst (λ d. Evolves d.status new.status) here p,
          ),
        )
    | inr miss ↦
        (e, (scalar-replace_other (λ r. r.id) new.id k new db.events refl miss ∙ e_row, stays))
  ]

module _ (k : ℕ) (e : Event) where
  abbrev Kept : Event × Database → Type 0
  Kept r = HasEvolved k e r.1

  create_event-Kept :
      (db : Database) (organizer_id : ℕ) (schema : EventCreate)
      → scalar (λ r. r.id == k) db.events ≡ some e
      → Ensures Kept (create_event db organizer_id schema)
  unfolding create_event
  create_event-Kept db organizer_id schema row =
      Ensures-bind (get_venue db schema.venue_id) _ λ _ _.
        Ensures-bind (validate_event_times_on_create schema) _ λ _ _.
          Ensures-bind (on_integrity_error (flush_new_event db _) _) _
            λ _ _. returned (e, (scalar-append _ db.events _ e row, stays))

  update_event-Kept :
      (db : Database) (schema : EventUpdate) (old : Event) (now : ℕ)
      → scalar (λ r. r.id == k) db.events ≡ some e
      → scalar (λ r. r.id == old.id) db.events ≡ some old
      → Ensures Kept (update_event db schema old now)
  unfolding update_event
  update_event-Kept db schema old now row old_row =
      Ensures-bind (validate_event_times_on_update schema old now) _ λ _ _.
        Ensures-bind (on_integrity_error (flush_event (write_event schema old)) _) _ λ _ _.
          returned
            (save_event-HasEvolved k db e old (write_event schema old) row old_row refl stays)

pub row_of :
    (db : Database) (event_id : ℕ) (old : Event)
    → scalar (λ r. r.id == event_id) db.events ≡ some old
    → scalar (λ r. r.id == old.id) db.events ≡ some old
row_of db event_id old found =
    subst (λ j. scalar (λ r. r.id == j) db.events ≡ some old)
      (sym ((==_iff old.id event_id).0 (scalar_holds _ db.events old found))) found

module _ (k : ℕ) (e : Event) where
  update_event_status-Kept :
      (db : Database) (status : EventStatus) (event_id : ℕ)
      → scalar (λ r. r.id == k) db.events ≡ some e
      → Ensures (Kept k e) (update_event_status db status event_id)
  unfolding update_event_status
  update_event_status-Kept db status event_id row =
      elim (Option-cases (scalar (λ r. r.id == event_id) db.events)) [
        | inl missing ↦ rw missing raised
        | inr (old, found) ↦
            Ensures-map _
              (λ r m. rw m.1 (
                save_event-HasEvolved k db e old (moved old status) row
                  (row_of db event_id old found) refl (then_moves stays m.0)))
              (update_event_status-Moves db status event_id old found)
      ]

  event_step-HasEvolved :
      (db : Database) (r : EventRequest)
      → scalar (λ r. r.id == k) db.events ≡ some e
      → HasEvolved k e (event_step db r)
  unfolding event_step create_event_as patch_event patch_event_status
  event_step-HasEvolved db (creates user organizer_id schema) row =
      get_db-Keeps (HasEvolved k e) db _ (e, (row, stays))
        (Ensures-bind (require_roles (Role.admin ∷ Role.organizer ∷ []) user) _ λ _ _.
          Ensures-bind (require_organizer_member organizer_id user) _
            λ id _. create_event-Kept k e db id schema row)
  event_step-HasEvolved db (patches user event_id schema now) row =
      get_db-Keeps (HasEvolved k e) db _ (e, (row, stays))
        (Ensures-bind (require_roles (Role.admin ∷ Role.organizer ∷ []) user) _ λ _ _.
          Ensures-bind (ensure_event_owner db event_id user) _ λ old found.
            update_event-Kept k e db schema old now row (
              row_of db event_id old
                (Ensures_ok _ (ensure_event_owner-row db event_id user) found)))
  event_step-HasEvolved db (sets_status user event_id status) row =
      get_db-Keeps (HasEvolved k e) db _ (e, (row, stays))
        (Ensures-bind (require_roles (Role.admin ∷ []) user) _
          λ _ _. update_event_status-Kept db status event_id row)

-- No history of requests deletes an event, and its status only moves along the edges of the graph:
-- the event of a key is there at the end, with a status that the first one leads to.
pub run_events-HasEvolved :
    (k : ℕ) (e : Event) (db : Database) (rs : List EventRequest)
    → scalar (λ r. r.id == k) db.events ≡ some e
    → HasEvolved k e (run_events db rs)
unfolding run_events
run_events-HasEvolved k e db [] row = (e, (row, stays))
run_events-HasEvolved k e db (r ∷ rs) row =
    let (e1, (row1, first)) = event_step-HasEvolved k e db r row in
    let (e2, (row2, rest)) = run_events-HasEvolved k e1 (event_step db r) rs row1 in
    (e2, (row2, Evolves-trans first rest))
