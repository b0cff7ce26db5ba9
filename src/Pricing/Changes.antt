-- ===== src/Pricing/Changes.antt =====
-- What changes of price, deletions and ticket types leave of the offers and their sales.
use ticketing_system.Prelude.{
  ◌≡◌, refl, Bool, true, ◌&&◌, List, some, String, arith, ◌==◌, sym, ◌∙◌,
}
use ticketing_system.Errors.{Ensures, Ensures-raise_if, returned}
use ticketing_system.Table.{scalar, exists, update, delete, Unique}
use ticketing_system.Table.Laws.{
  All-map, All-both, All-replace, All-delete, scalar-All, exists-All, exists-append_true,
  exists-delete_other,
}
use ticketing_system.Table.Keys.{has_key}
use ticketing_system.Table.Replace.{exists-replace}
use ticketing_system.Table.Kept.{
  IsKept-append, IsKept-replace, IsKept-delete, found_free, exists-replace_true,
}
use ticketing_system.Schema.{Database, TicketType, EventTicketType}
use ticketing_system.Pricing.{
  EventTicketTypeUpdate, same_type_name, flush_ticket_type, new_ticket_type, flush_type_deletion,
  same_offer, offer_overflows, refers, repriced, flush_price, flush_offer_deletion,
}
use ticketing_system.Pricing.Offers.{
  same_offer_sym, same_type_name_sym, IsPayable, AreOffered, Leaves, same_sectors,
}

-- A change of price leaves the keys.
repriced_same :
    (es : List EventTicketType) (e e' : EventTicketType) (q : EventTicketType → Bool)
    → Unique (λ d. d.id) es
    → scalar (has_key (λ d. d.id) e.id) es ≡ some e
    → q e' ≡ q e
    → exists q (update (λ d. d.id == e.id) (λ _. e') es) ≡ exists q es
repriced_same es e e' q u found same =
    let fits : q e ≡ true → q e' ≡ true = λ h. same ∙ h in
    let fits' : q e' ≡ true → q e ≡ true = λ h. sym same ∙ h in
    let after = exists-replace_true (λ d. d.id) q e.id e e' es u found fits in
    let before = exists-replace (λ d. d.id) q e.id e e' es found fits' in
    ground (arith, after, before)

pub flush_price-Leaves :
    (db : Database) (e : EventTicketType) (schema : EventTicketTypeUpdate)
    → scalar (has_key (λ d. d.id) e.id) db.event_ticket_types ≡ some e
    → AreOffered db
    → Ensures (Leaves db) (flush_price db (repriced schema e))
unfolding flush_price
flush_price-Leaves db e schema found h =
    let e' = repriced schema e in
    let es = db.event_ticket_types in
    let same_exists = λ (q : EventTicketType → Bool) (same : q e' ≡ q e).
      repriced_same es e e' q h.offers.keys found same in
    Ensures-raise_if (offer_overflows e') _ _ λ payable.
      let (known, same) =
        same_sectors es (update (λ d. d.id == e.id) (λ _. e') es) db.ticket_instances (
          All-map _ _ db.ticket_instances
            (λ t p. (
              same_exists (λ d. d.id == t.event_ticket_type_id) refl ∙ p,
              λ k. same_exists (λ d. d.id == t.event_ticket_type_id && d.event_sector_id == k) refl,
            ))
            h.known) in
      returned (record {
        offered = record {
          offers =
              IsKept-replace (λ d. d.id) same_offer same_offer_sym db.next.event_ticket_type_id e e'
                es found
                (found_free (λ d. d.id) same_offer same_offer_sym e es h.offers.distinct found)
                h.offers;
          types = h.types;
          referred =
              All-replace (λ d. refers db d ≡ true) (λ d. d.id == e.id) e' es
                (scalar-All (λ d. refers db d ≡ true) _ es e h.referred found) h.referred;
          payable =
              All-replace IsPayable (λ d. d.id == e.id) e' es
                (ground (arith, payable), ground (arith, payable)) h.payable;
          known = known;
        };
        same_sold = same;
      })

pub flush_offer_deletion-Leaves :
    (db : Database) (e : EventTicketType)
    → AreOffered db
    → Ensures (Leaves db) (flush_offer_deletion db e)
unfolding flush_offer_deletion
flush_offer_deletion-Leaves db e h =
    let es = db.event_ticket_types in
    Ensures-raise_if (exists (λ t. t.event_ticket_type_id == e.id) db.ticket_instances) _ _
      λ unused.
        let (known, same) = same_sectors es (delete (λ d. d.id == e.id) es) db.ticket_instances (
          All-map _ _ db.ticket_instances
            (λ t p. (
              exists-delete_other (λ d. d.id == t.event_ticket_type_id) (λ d. d.id == e.id) es
                    (λ d hit. ground (arith, hit, p.1))
                  ∙ p.0,
              λ k.
                  exists-delete_other
                    (λ d. d.id == t.event_ticket_type_id && d.event_sector_id == k)
                    (λ d. d.id == e.id) es (λ d hit. ground (arith, hit, p.1)),
            ))
            (All-both _ _ db.ticket_instances h.known (exists-All _ db.ticket_instances unused))) in
        returned (record {
          offered = record {
            offers =
                IsKept-delete (λ d. d.id) same_offer db.next.event_ticket_type_id
                  (λ d. d.id == e.id) es h.offers;
            types = h.types;
            referred = All-delete (λ d. refers db d ≡ true) (λ d. d.id == e.id) es h.referred;
            payable = All-delete IsPayable (λ d. d.id == e.id) es h.payable;
            known = known;
          };
          same_sold = same;
        })

pub flush_ticket_type-Leaves :
    (db : Database) (name : String)
    → AreOffered db
    → Ensures (Leaves db) (flush_ticket_type db (new_ticket_type db.next.ticket_type_id name))
unfolding flush_ticket_type
flush_ticket_type-Leaves db name h =
    let t = new_ticket_type db.next.ticket_type_id name in
    Ensures-raise_if (exists (λ s. same_type_name s t) db.ticket_types) _ _ λ new.
      returned (record {
        offered = record {
          offers = h.offers;
          types =
              IsKept-append (λ s. s.id) same_type_name same_type_name_sym db.next.ticket_type_id t
                db.ticket_types refl new h.types;
          referred =
              All-map _ _ db.event_ticket_types
                (λ e r.
                  let there =
                    exists-append_true (λ s. s.id == e.ticket_type_id) db.ticket_types t
                      (ground (arith, r)) in
                  ground (arith, r, there))
                h.referred;
          payable = h.payable;
          known = h.known;
        };
        same_sold = λ k. refl;
      })

pub flush_type_deletion-Leaves :
    (db : Database) (t : TicketType)
    → AreOffered db
    → Ensures (Leaves db) (flush_type_deletion db t)
unfolding flush_type_deletion
flush_type_deletion-Leaves db t h =
    Ensures-raise_if (exists (λ e. e.ticket_type_id == t.id) db.event_ticket_types) _ _ λ unused.
      returned (record {
        offered = record {
          offers = h.offers;
          types =
              IsKept-delete (λ s. s.id) same_type_name db.next.ticket_type_id (λ s. s.id == t.id)
                db.ticket_types h.types;
          referred =
              All-map _ _ db.event_ticket_types
                (λ e r.
                  let there =
                    exists-delete_other (λ s. s.id == e.ticket_type_id) (λ s. s.id == t.id)
                      db.ticket_types (λ s hit. ground (arith, hit, r.1)) in
                  ground (arith, r.0, there))
                (All-both _ _ db.event_ticket_types h.referred
                  (exists-All _ db.event_ticket_types unused));
          payable = h.payable;
          known = h.known;
        };
        same_sold = λ k. refl;
      })
