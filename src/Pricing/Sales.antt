-- ===== src/Pricing/Sales.antt =====
-- What every history of requests on prices leaves of the sales.
use ticketing_system.Prelude.{ℕ, refl, some, ◌≡◌, List, [], ◌∷◌, String, ◌==◌, ◌&&◌}
use ticketing_system.Errors.{
  Result, Error, ok, ◌>>=◌, or_raise, or_raise_ok, on_integrity_error, Ensures, Ensures-bind,
  Ensures_ok, Ensures-on_integrity_error, returned, get_db-Keeps,
}
use ticketing_system.Table.{scalar, exists}
use ticketing_system.Table.Keys.{has_key, scalar-key}
use ticketing_system.Schema.{Database, User, Role, EventTicketType, EventSector}
use ticketing_system.Access.{require_roles, ensure_event_owner, require_event_ticket_type_access}
use ticketing_system.Allocation.{get_event_sector}
use ticketing_system.Pricing.{
  EventTicketTypeCreate, EventTicketTypeUpdate, create_ticket_type, delete_ticket_type,
  new_ticket_type, flush_ticket_type, flush_type_deletion, create_event_ticket_type, flush_offer,
  new_offer, flush_offers, bulk_create_event_ticket_types, repriced, flush_price,
  update_event_ticket_type, flush_offer_deletion, delete_event_ticket_type, get_ticket_type,
  PriceRequest, offers, offers_all, patches, deletes, creates_type, deletes_type, post_offer,
  post_offers, patch_offer, delete_offer, create_type, delete_type, price_step, run_prices,
}
use ticketing_system.Pricing.Offers.{
  AreOffered, Leaves, Leaves-refl, Leaves-trans, flush_offer-Leaves, flush_offers-Leaves,
}
use ticketing_system.Pricing.Changes.{
  flush_price-Leaves, flush_offer_deletion-Leaves, flush_ticket_type-Leaves,
  flush_type_deletion-Leaves,
}

abbrev Sound {ℓ} : {A : Type ℓ} → Database → Result (A × Database) → Type ℓ
Sound db r = Ensures (λ p. Leaves db p.1) r

flush-Sound :
    {A : Type 0} (db : Database) (r : Result Database) (e : Error) (a : A)
    → Ensures (Leaves db) r
    → Sound db (on_integrity_error r e >>= λ db1. ok (a, db1))
flush-Sound db r e a h =
    Ensures-bind (on_integrity_error r e) _
      λ db1 flushed. returned (Ensures_ok _ (Ensures-on_integrity_error r e h) flushed)

create_event_ticket_type-Sound :
    (db : Database) (schema : EventTicketTypeCreate) (s : EventSector)
    → AreOffered db
    → Sound db (create_event_ticket_type db schema s)
unfolding create_event_ticket_type
create_event_ticket_type-Sound db schema s h =
    let e = new_offer db.next.event_ticket_type_id s.id schema in
    flush-Sound db (flush_offer db e) _ e (flush_offer-Leaves db e refl h)

post_offer-Sound :
    (db : Database) (user : User) (event_id sector_id : ℕ) (schema : EventTicketTypeCreate)
    → AreOffered db
    → Sound db (post_offer db user event_id sector_id schema)
unfolding post_offer
post_offer-Sound db user event_id sector_id schema h =
    Ensures-bind (require_roles (Role.admin ∷ Role.organizer ∷ []) user) _ λ _ _.
      Ensures-bind (ensure_event_owner db event_id user) _ λ event _.
        Ensures-bind (get_event_sector db event.id sector_id) _
          λ s _. create_event_ticket_type-Sound db schema s h

post_offers-Sound :
    (db : Database) (user : User) (event_id sector_id : ℕ) (schema : EventTicketTypeCreate)
    (schemas : List EventTicketTypeCreate)
    → AreOffered db
    → Sound db (post_offers db user event_id sector_id schema schemas)
unfolding post_offers bulk_create_event_ticket_types
post_offers-Sound db user event_id sector_id schema schemas h =
    Ensures-bind (require_roles (Role.admin ∷ Role.organizer ∷ []) user) _ λ _ _.
      Ensures-bind (ensure_event_owner db event_id user) _ λ event _.
        Ensures-bind (get_event_sector db event.id sector_id) _ λ s _.
          Ensures-bind (flush_offers db s.id (schema ∷ schemas)) _
            λ db1 e. returned (Ensures_ok _ (flush_offers-Leaves db s.id (schema ∷ schemas) h) e)

-- The offer that the access check answers is a row of the table.
access_found :
    (db : Database) (id : ℕ) (user : User)
    → AreOffered db
    → Ensures
        (λ (e : EventTicketType). scalar (has_key (λ d. d.id) e.id) db.event_ticket_types ≡ some e)
        (require_event_ticket_type_access db id user)
unfolding require_event_ticket_type_access
access_found db id user h =
    let listed = λ (d : EventTicketType).
      d.id == id && exists (λ s. s.id == d.event_sector_id) db.event_sectors in
    Ensures-bind (or_raise (scalar listed db.event_ticket_types) _) _ λ e found.
      Ensures-bind (or_raise (scalar (λ s. s.id == e.event_sector_id) db.event_sectors) _) _ λ s _.
        Ensures-bind (ensure_event_owner db s.event_id user) _ λ _ _. returned (
          scalar-key (λ d. d.id) listed db.event_ticket_types e h.offers.keys
            (or_raise_ok _ _ e found))

patch_offer-Sound :
    (db : Database) (user : User) (id : ℕ) (schema : EventTicketTypeUpdate)
    → AreOffered db
    → Sound db (patch_offer db user id schema)
unfolding patch_offer update_event_ticket_type
patch_offer-Sound db user id schema h =
    Ensures-bind (require_roles (Role.admin ∷ Role.organizer ∷ []) user) _ λ _ _.
      Ensures-bind (require_event_ticket_type_access db id user) _ λ e granted.
        flush-Sound db (flush_price db (repriced schema e)) _ (repriced schema e)
          (flush_price-Leaves db e schema (Ensures_ok _ (access_found db id user h) granted) h)

delete_offer-Sound :
    (db : Database) (user : User) (id : ℕ) → AreOffered db → Sound db (delete_offer db user id)
unfolding delete_offer delete_event_ticket_type
delete_offer-Sound db user id h =
    Ensures-bind (require_roles (Role.admin ∷ Role.organizer ∷ []) user) _ λ _ _.
      Ensures-bind (require_event_ticket_type_access db id user) _
        λ e _. flush-Sound db (flush_offer_deletion db e) _ tt (flush_offer_deletion-Leaves db e h)

create_type-Sound :
    (db : Database) (user : User) (name : String)
    → AreOffered db
    → Sound db (create_type db user name)
unfolding create_type create_ticket_type
create_type-Sound db user name h =
    let t = new_ticket_type db.next.ticket_type_id name in
    Ensures-bind (require_roles (Role.admin ∷ []) user) _
      λ _ _. flush-Sound db (flush_ticket_type db t) _ t (flush_ticket_type-Leaves db name h)

delete_type-Sound :
    (db : Database) (user : User) (id : ℕ) → AreOffered db → Sound db (delete_type db user id)
unfolding delete_type delete_ticket_type
delete_type-Sound db user id h = Ensures-bind (require_roles (Role.admin ∷ []) user) _ λ _ _.
    Ensures-bind (get_ticket_type db id) _
      λ t _. flush-Sound db (flush_type_deletion db t) _ tt (flush_type_deletion-Leaves db t h)

price_step-Leaves : (db : Database) (r : PriceRequest) → AreOffered db → Leaves db (price_step db r)
unfolding price_step
price_step-Leaves db (offers user event_id sector_id schema) h =
    get_db-Keeps (Leaves db) db _ (Leaves-refl db h)
      (post_offer-Sound db user event_id sector_id schema h)
price_step-Leaves db (offers_all user event_id sector_id schema schemas) h =
    get_db-Keeps (Leaves db) db _ (Leaves-refl db h)
      (post_offers-Sound db user event_id sector_id schema schemas h)
price_step-Leaves db (patches user id schema) h =
    get_db-Keeps (Leaves db) db _ (Leaves-refl db h) (patch_offer-Sound db user id schema h)
price_step-Leaves db (deletes user id) h =
    get_db-Keeps (Leaves db) db _ (Leaves-refl db h) (delete_offer-Sound db user id h)
price_step-Leaves db (creates_type user name) h =
    get_db-Keeps (Leaves db) db _ (Leaves-refl db h) (create_type-Sound db user name h)
price_step-Leaves db (deletes_type user id) h =
    get_db-Keeps (Leaves db) db _ (Leaves-refl db h) (delete_type-Sound db user id h)

-- Whatever is asked about offers and ticket types, if it was so before: a sector has one offer at most
-- for a ticket type, every offer is of a sector and a type that are there, with a price and a rate
-- that their columns hold, every sold ticket's offer is there, and no sector counts more or fewer sold tickets than before.
pub run_prices-Leaves :
    (db : Database) (rs : List PriceRequest) → AreOffered db → Leaves db (run_prices db rs)
unfolding run_prices
run_prices-Leaves db [] h = Leaves-refl db h
run_prices-Leaves db (r ∷ rs) h =
    let step = price_step-Leaves db r h in
    Leaves-trans db (price_step db r) (run_prices (price_step db r) rs) step
      (run_prices-Leaves (price_step db r) rs step.offered)
