-- ===== src/Listings/Tickets/Rows.antt =====
-- Whose tickets the lists show, and what of a ticket's holder.
use Prim.Native.String as S
use Prim.Native.String.count
use ticketing_system.Prelude.{
  ℕ, zero, suc, ◌-◌, ◌≤◌, ◌≡◌, refl, Bool, true, false, List, ◌∷◌, Option, none, some, String, ◌==◌,
  arith, All, ap, sym, is_some, subst,
}
use ticketing_system.Table.{scalar, Unique}
use ticketing_system.Table.Laws.{All-map}
use ticketing_system.Table.Replace.{Unique-scalar}
use ticketing_system.Schema.{
  Database, Order, TicketInstance, TicketHolder, Ticket, Event, Account, Venue, Sector, EventSector,
  EventTicketType,
}
use ticketing_system.Pagination.{holds_all}
use ticketing_system.Pagination.Ordering.{page-All_map}
use ticketing_system.Listings.Joins.{joined-All, some_injective, bind_some}
use ticketing_system.Listings.Tickets.{
  HolderDto, public_holder, private_holder, drop_chars, last_four, TicketRow, row_select, join_user,
  ticket_rows, TicketReadItem, to_holder_dto, OrganizerTicketsQuery, query_filters, map_ticket_row,
  list_tickets_helper, list_organizer_tickets, newest_ticket,
}

drop_chars-count : (n : ℕ) (s : String) → S.count (drop_chars n s) ≡ S.count s - n
unfolding drop_chars
drop_chars-count zero s = omega arith
drop_chars-count (suc n) S.[] = omega arith
drop_chars-count (suc n) (S.◌∷◌ c s) =
    let longer : S.count (S.◌∷◌ c s) ≡ suc (S.count s) = count.cons c s in
    omega (arith, drop_chars-count n s, longer)

-- An answer without a holder, or with at most four characters of the identification number.
abbrev pub IsPublic : Option HolderDto → Type 0
IsPublic none = Unit
IsPublic (some (public_holder id first_name last_name suffix)) = S.count suffix ≤ 4
IsPublic (some (private_holder id first_name last_name number)) = ⊥

to_holder_dto-IsPublic : (h : Option TicketHolder) → IsPublic (to_holder_dto h false)
unfolding to_holder_dto last_four
to_holder_dto-IsPublic none = tt
to_holder_dto-IsPublic (some h) =
    omega (arith, drop_chars-count (S.count h.identification_number - 4) h.identification_number)

-- The tables that a row joins.
abbrev pub IsJoined : Database → TicketRow → Type 0
IsJoined db r =
    (scalar (λ (t : Ticket). t.id == r.ticket.id) db.tickets ≡ some r.ticket)
    × (scalar (λ (i : TicketInstance). i.id == r.ticket.ticket_instance_id) db.ticket_instances
        ≡ some r.ticket_instance)
    × (scalar (λ (o : Order). o.id == r.ticket_instance.order_id) db.orders ≡ some r.order)
    × (scalar (λ (e : Event). e.id == r.ticket_instance.event_id) db.events ≡ some r.event)
    × (r.holder
        ≡ scalar (λ (h : TicketHolder). h.ticket_instance_id == r.ticket_instance.id)
            db.ticket_holders)

row_select-IsJoined :
    (db : Database) (t : Ticket) (r : TicketRow)
    → scalar (λ (s : Ticket). s.id == t.id) db.tickets ≡ some t
    → row_select db t ≡ some r
    → IsJoined db r
unfolding row_select
row_select-IsJoined db t r there e =
    let (i, ei, ki) =
      bind_some (scalar (λ (i : TicketInstance). i.id == t.ticket_instance_id) db.ticket_instances)
        _ r e in
    let (o, eo, ko) = bind_some (scalar (λ (o : Order). o.id == i.order_id) db.orders) _ r ki in
    let (ev, ee, ke) = bind_some (scalar (λ (x : Event). x.id == i.event_id) db.events) _ r ko in
    let (v, _, kv) = bind_some (scalar (λ (x : Venue). x.id == ev.venue_id) db.venues) _ r ke in
    let (p, _, kp) =
      bind_some
        (scalar (λ (x : EventTicketType). x.id == i.event_ticket_type_id) db.event_ticket_types) _ r
        kv in
    let (s, _, ks) =
      bind_some (scalar (λ (x : EventSector). x.id == p.event_sector_id) db.event_sectors) _ r kp in
    let (c, _, kc) = bind_some (scalar (λ (x : Sector). x.id == s.sector_id) db.sectors) _ r ks in
    subst (IsJoined db) (some_injective kc) (there, ei, eo, ee, refl)

join_user-IsJoined :
    (db : Database) (needs : Bool) (q r : TicketRow)
    → join_user db needs q ≡ some r
    → IsJoined db q
    → IsJoined db r
unfolding join_user
join_user-IsJoined db false q r e h = subst (IsJoined db) (some_injective e) h
join_user-IsJoined db true q r e h =
    let (a, _, k) =
      bind_some (scalar (λ (a : Account). a.user.id == q.order.user_id) db.accounts) _ r e in
    subst (IsJoined db) (some_injective k) h

ticket_rows-IsJoined :
    (db : Database) (needs : Bool)
    → Unique (λ (t : Ticket). t.id) db.tickets
    → All (IsJoined db) (ticket_rows db needs)
unfolding ticket_rows
ticket_rows-IsJoined db needs u =
    joined-All (λ t. scalar (λ (s : Ticket). s.id == t.id) db.tickets ≡ some t) (IsJoined db) _
      (λ t r there e.
        let (q, eq, k) = bind_some (row_select db t) _ r e in
        join_user-IsJoined db needs q r k (row_select-IsJoined db t q there eq))
      db.tickets (Unique-scalar (λ (t : Ticket). t.id) db.tickets u)

module _ (created_at : ℕ → ℕ) (db : Database) where
  -- An item is made from the rows that the database joins with a ticket.
  abbrev pub Shows : Bool → TicketRow → TicketReadItem → Type 0
  Shows full r item = (item ≡ map_ticket_row created_at full r) × IsJoined db r

  shown_holder :
      (r : TicketRow) (item : TicketReadItem)
      → Shows false r item
      → item.holder ≡ to_holder_dto r.holder false
  unfolding map_ticket_row
  shown_holder r item (made, _) = ap (λ (x : TicketReadItem). x.holder) made

  list_tickets_helper-Shows :
      (u : Unique (λ (t : Ticket). t.id) db.tickets) (filters : List (TicketRow → Bool))
      (page page_size : ℕ) (needs full : Bool)
      → All
          (λ item. (r : TicketRow) × Shows full r item × (holds_all filters r ≡ true))
          (list_tickets_helper created_at db filters page page_size needs full).items
  unfolding list_tickets_helper
  list_tickets_helper-Shows u filters page page_size needs full =
      All-map _ _ _ (λ b (r, made, joins, fits). (r, (made, joins), fits))
        (page-All_map (IsJoined db) (map_ticket_row created_at full) (newest_ticket created_at)
          (λ r. r.ticket.id) filters page page_size (ticket_rows db needs)
          (ticket_rows-IsJoined db needs u))

  -- If no two tickets have one key, every item of a page of an organizer's tickets is made from a ticket
  -- of the database, with the instance, the order, the event and the holder that the tables have for it,
  -- and the event is this organizer's; the item shows no holder, or a public one with at most four
  -- characters of the identification number.
  pub list_organizer_tickets-IsPublic :
      (organizer_id : ℕ) (query : OrganizerTicketsQuery)
      → Unique (λ (t : Ticket). t.id) db.tickets
      → All
          (λ item.
            ((r : TicketRow) × Shows false r item × (r.event.organizer_id ≡ organizer_id))
            × IsPublic item.holder)
          (list_organizer_tickets created_at db organizer_id query).items
  unfolding list_organizer_tickets
  list_organizer_tickets-IsPublic organizer_id query u =
      All-map _ _ _
        (λ item (r, shown, fits). (
          (r, shown, ground (arith, fits)),
          subst IsPublic (sym (shown_holder r item shown)) (to_holder_dto-IsPublic r.holder),
        ))
        (list_tickets_helper-Shows u
          ((λ r. r.event.organizer_id == organizer_id) ∷ query_filters query) query.page
          query.page_size (is_some query.email) false)
