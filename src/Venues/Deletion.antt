-- ===== src/Venues/Deletion.antt =====
-- What the deletion of a seat does to a ticket for it.
use ticketing_system.Prelude.{
  ℕ, ◌≡◌, refl, Bool, true, false, Bool-cases, inl, inr, List, [], ◌∷◌, none, some, arith, ◌==◌,
  ◌∙◌, ap, ==_refl,
}
use mathlib.Core.Option
use ticketing_system.Errors.{ok, err, conflict}
use ticketing_system.Table.{scalar, exists, update, delete, rewrite_row}
use ticketing_system.Table.Laws.{scalar-update, scalar-none}
use ticketing_system.Table.Keys.{exists_found}
use ticketing_system.Schema.{Database, Seat, TicketInstance}
use ticketing_system.Venues.{get_seat, sits_on, flush_deletion, delete_seat}

none_left {ℓ} : {A : Type ℓ} (p : A → Bool) (rs : List A) → exists p (delete p rs) ≡ false
unfolding exists delete
none_left p [] = refl
none_left p (r ∷ rs) = ground (arith, none_left p rs)

nobody_sits :
    (k : ℕ) (ts : List TicketInstance)
    → exists (sits_on k) (update (sits_on k) (λ t. record t { seat_id = none }) ts) ≡ false
unfolding exists update
nobody_sits k [] = refl
nobody_sits k (t ∷ ts) = elim (Bool-cases (sits_on k t)) [
  | inl hit ↦ rw (hit, nobody_sits k ts) refl
  | inr miss ↦ rw (miss, miss, nobody_sits k ts) refl
]

-- A seat for which a ticket instance was made is asked to be deleted. Where the ORM empties the
-- children's foreign keys first, as it does by default, the deletion returns: the seat is gone, nothing
-- sits on it any more, the instance is left with no seat, and the tickets are as they were. Where the
-- ORM leaves that to the database, the answer is that the seat is in use.
pub delete_seat_unseats :
    (db : Database) (seat : Seat) (t : TicketInstance)
    → scalar (λ s. s.id == seat.id) db.seats ≡ some seat
    → scalar (λ r. r.id == t.id) db.ticket_instances ≡ some t
    → t.seat_id ≡ some seat.id
    → ((db' : Database) × (delete_seat true db seat.id ≡ ok (tt, db'))
        × (scalar (λ s. s.id == seat.id) db'.seats ≡ none)
        × (exists (sits_on seat.id) db'.ticket_instances ≡ false)
        × (scalar (λ r. r.id == t.id) db'.ticket_instances ≡ some (record t { seat_id = none }))
        × (db'.tickets ≡ db.tickets))
      × (delete_seat false db seat.id ≡ err (conflict "Seat in use"))
unfolding delete_seat get_seat flush_deletion
delete_seat_unseats db seat t found row sits =
    let there : sits_on seat.id t ≡ true = rw (sits, ==_refl seat.id) refl in
    let taken : exists (sits_on seat.id) db.ticket_instances ≡ true =
      exists_found (λ r. r.id) (λ r. r.id == t.id) (sits_on seat.id) db.ticket_instances t row
        there in
    rw found (
      (
        _,
        refl,
        scalar-none (λ s. s.id == seat.id) _ (none_left (λ s. s.id == seat.id) db.seats),
        nobody_sits seat.id db.ticket_instances,
        scalar-update (λ r. r.id == t.id) (sits_on seat.id) (λ r. record r { seat_id = none })
              db.ticket_instances (λ r. ground arith)
            ∙ ap (Option.map (rewrite_row (sits_on seat.id) (λ r. record r { seat_id = none }))) row
            ∙ rw there refl,
        refl,
      ),
      rw taken refl,
    )
