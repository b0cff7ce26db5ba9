-- ===== src/Pricing/Offers.antt =====
-- The offers of sectors: one for each ticket type, each of a sector and a type that are there.
use ticketing_system.Prelude.{
  ℕ, ◌<◌, ◌≡◌, refl, Bool, true, false, not, ◌&&◌, List, [], ◌∷◌, ◌++◌, arith, ◌==◌, All,
  Bool-cases, inl, inr, subst, sym, ◌∙◌, ==_iff,
}
use ticketing_system.Prelude.Strings.{same_string_sym}
use ticketing_system.Errors.{Ensures, Ensures-raise_if, Ensures-map, returned}
use ticketing_system.Table.{exists, count}
use ticketing_system.Table.Laws.{
  All-append, All-map, exists-append_either, exists-append_true, count_ext_All,
}
use ticketing_system.Table.Keys.{has_key, exists_fresh}
use ticketing_system.Table.Kept.{IsKept, IsKept-append, IsKept-skip}
use ticketing_system.Schema.{
  Database, TicketType, EventTicketType, TicketInstance, price_limit, rate_limit,
}
use ticketing_system.Invariants.{in_sector, sold}
use ticketing_system.Pricing.{
  EventTicketTypeCreate, same_type_name, same_offer, offer_overflows, insert_offer, refers,
  flush_offer, new_offer, skip_offer, put_offer, flush_offers,
}

pub same_offer_sym : (d e : EventTicketType) → same_offer d e ≡ same_offer e d
same_offer_sym d e = ground arith

pub same_type_name_sym : (s t : TicketType) → same_type_name s t ≡ same_type_name t s
same_type_name_sym s t = same_string_sym s.name t.name

-- The instance's offer is there.
abbrev pub is_known : List EventTicketType → TicketInstance → Bool
is_known es t = exists (λ e. e.id == t.event_ticket_type_id) es

-- The price and the rate are in the range of their columns.
abbrev pub IsPayable : EventTicketType → Type 0
IsPayable e = (e.price_net < price_limit) × (e.vat_rate < rate_limit)

pub record AreOffered (db : Database) : Type 0 where
  pub offers : IsKept (λ e. e.id) same_offer db.next.event_ticket_type_id db.event_ticket_types
  pub types : IsKept (λ t. t.id) same_type_name db.next.ticket_type_id db.ticket_types
  pub referred : All (λ e. refers db e ≡ true) db.event_ticket_types
  pub payable : All IsPayable db.event_ticket_types
  pub known : All (λ t. is_known db.event_ticket_types t ≡ true) db.ticket_instances

-- What a request on prices leaves: sound offers, and as many sold tickets of each sector.
pub record Leaves (db db' : Database) : Type 0 where
  pub offered : AreOffered db'
  pub same_sold : (k : ℕ) → sold db' k ≡ sold db k

pub Leaves-refl : (db : Database) → AreOffered db → Leaves db db
Leaves-refl db h = record { offered = h; same_sold = λ k. refl }

pub Leaves-trans : (a b c : Database) → Leaves a b → Leaves b c → Leaves a c
Leaves-trans a b c p q = record {
  offered = q.offered;
  same_sold = λ k. q.same_sold k ∙ p.same_sold k;
}

-- The instances' offers stand in the sectors they stood in.
pub same_sectors :
    (es es' : List EventTicketType) (ts : List TicketInstance)
    → All (λ t. (is_known es' t ≡ true) × ((k : ℕ) → in_sector es' k t ≡ in_sector es k t)) ts
    → All (λ t. is_known es' t ≡ true) ts
      × ((k : ℕ) → count (in_sector es' k) ts ≡ count (in_sector es k) ts)
same_sectors es es' ts h = (
  All-map _ _ ts (λ t p. p.0) h,
  λ k. count_ext_All (in_sector es' k) (in_sector es k) ts (All-map _ _ ts (λ t p. p.1 k) h),
)

pub appended_same :
    (db : Database) (e : EventTicketType) (t : TicketInstance)
    → e.id ≡ db.next.event_ticket_type_id
    → All (λ d. d.id < db.next.event_ticket_type_id) db.event_ticket_types
    → is_known db.event_ticket_types t ≡ true
    → (is_known (db.event_ticket_types ++ e ∷ []) t ≡ true)
      × ((k : ℕ)
          → in_sector (db.event_ticket_types ++ e ∷ []) k t ≡ in_sector db.event_ticket_types k t)
appended_same db e t id below known =
    let fresh = exists_fresh (λ d. d.id) db.next.event_ticket_type_id db.event_ticket_types below in
    let fresh_e =
      subst (λ k. exists (has_key (λ d. d.id) k) db.event_ticket_types ≡ false) (sym id) fresh in
    let other : (e.id == t.event_ticket_type_id) ≡ false =
      elim (Bool-cases (e.id == t.event_ticket_type_id)) [
        | inl hit ↦
            let named = (==_iff e.id t.event_ticket_type_id).0 hit in
            absurd (
              ground (
                arith,
                known,
                subst (λ k. exists (has_key (λ d. d.id) k) db.event_ticket_types ≡ false) named
                    fresh_e,
              ))
        | inr miss ↦ miss
      ] in
    (
      exists-append_true (λ d. d.id == t.event_ticket_type_id) db.event_ticket_types e known,
      λ k.
          exists-append_either (λ d. d.id == t.event_ticket_type_id && d.event_sector_id == k)
            db.event_ticket_types e
          ∙ ground (arith, other),
    )

-- A new offer is that of no instance.
insert_offer-Leaves :
    (db : Database) (e : EventTicketType)
    → e.id ≡ db.next.event_ticket_type_id
    → IsPayable e
    → exists (λ d. same_offer d e) db.event_ticket_types ≡ false
    → refers db e ≡ true
    → AreOffered db
    → Leaves db (insert_offer db e)
insert_offer-Leaves db e id payable new refers_e h =
    let (known, same) =
      same_sectors db.event_ticket_types (db.event_ticket_types ++ e ∷ []) db.ticket_instances
        (All-map _ _ db.ticket_instances (λ t. appended_same db e t id h.offers.below) h.known) in
    record {
      offered = record {
        offers =
            IsKept-append (λ d. d.id) same_offer same_offer_sym db.next.event_ticket_type_id e
              db.event_ticket_types id new h.offers;
        types = h.types;
        referred =
            All-append (λ d. refers db d ≡ true) db.event_ticket_types (e ∷ []) h.referred
              (refers_e, tt);
        payable = All-append IsPayable db.event_ticket_types (e ∷ []) h.payable (payable, tt);
        known = known;
      };
      same_sold = same;
    }

skip_offer-Leaves : (db : Database) → AreOffered db → Leaves db (skip_offer db)
skip_offer-Leaves db h = record {
  offered = record {
    offers =
        IsKept-skip (λ d. d.id) same_offer db.next.event_ticket_type_id db.event_ticket_types
          h.offers;
    types = h.types;
    referred = h.referred;
    payable = h.payable;
    known = h.known;
  };
  same_sold = λ k. refl;
}

pub flush_offer-Leaves :
    (db : Database) (e : EventTicketType)
    → e.id ≡ db.next.event_ticket_type_id
    → AreOffered db
    → Ensures (Leaves db) (flush_offer db e)
unfolding flush_offer
flush_offer-Leaves db e id h = Ensures-raise_if (offer_overflows e) _ _ λ payable.
    Ensures-raise_if (exists (λ d. same_offer d e) db.event_ticket_types) _ _ λ new.
      Ensures-raise_if (not (refers db e)) _ _ λ refers_e. returned (
        insert_offer-Leaves db e id (ground (arith, payable), ground (arith, payable)) new
          (ground (arith, refers_e)) h)

put_offer-Leaves :
    (db : Database) (e : EventTicketType)
    → e.id ≡ db.next.event_ticket_type_id
    → IsPayable e
    → refers db e ≡ true
    → AreOffered db
    → Leaves db (put_offer db e)
put_offer-Leaves db e id payable refers_e h =
    elim (Bool-cases (exists (λ d. same_offer d e) db.event_ticket_types)) [
      | inl taken ↦ rw taken (skip_offer-Leaves db h)
      | inr new ↦ rw new (insert_offer-Leaves db e id payable new refers_e h)
    ]

pub flush_offers-Leaves :
    (db : Database) (k : ℕ) (schemas : List EventTicketTypeCreate)
    → AreOffered db
    → Ensures (Leaves db) (flush_offers db k schemas)
unfolding flush_offers
flush_offers-Leaves db k [] h = returned (Leaves-refl db h)
flush_offers-Leaves db k (schema ∷ schemas) h =
    let e = new_offer db.next.event_ticket_type_id k schema in
    Ensures-raise_if (offer_overflows e) _ _ λ payable.
      Ensures-raise_if (not (refers db e)) _ _ λ refers_e.
        let step =
          put_offer-Leaves db e refl (ground (arith, payable), ground (arith, payable))
            (ground (arith, refers_e)) h in
        Ensures-map (flush_offers (put_offer db e) k schemas)
          (λ db' rest. Leaves-trans db (put_offer db e) db' step rest)
          (flush_offers-Leaves (put_offer db e) k schemas step.offered)
