-- ===== src/Listings/Tickets/Tests.antt =====
-- User 7 bought a ticket of the balcony at the concert of organizer 1.
use ticketing_system.Prelude.{◌≡◌, refl, true, false, [], ◌∷◌, none, some, All, map, ◌+◌}
use ticketing_system.Table.{scalar, exists}
use ticketing_system.Listings.Joins.{joined}
use ticketing_system.Schema.{Database, OrderStatus, TicketStatus}
use ticketing_system.Samples.{with_order_of, item}
use ticketing_system.Listings.Tickets.{
  TicketRow, OrganizerTicketsQuery, last_four, drop_chars, ticket_rows, row_select, join_user,
  list_organizer_tickets,
}
use ticketing_system.Listings.Tickets.Rows.{IsPublic, Shows, list_organizer_tickets-IsPublic}

abbrev sold : Database
sold = record (with_order_of OrderStatus.completed) {
  venues = record { id = 1; name = "Arena"; address_id = 1 } ∷ [];
  ticket_instances = record item { seat_id = some 31; event_ticket_type_id = 9 } ∷ [];
  ticket_holders =
      record {
        id = 1;
        ticket_instance_id = 1;
        first_name = "Jan";
        last_name = "Kowalski";
        birth_date = 100;
        identification_number = "ABC123456";
      }
      ∷ [];
  tickets =
      record { id = 1; ticket_instance_id = 1; code = "c0de"; status = TicketStatus.active } ∷ [];
}

abbrev query : OrganizerTicketsQuery
query = record {
  status = some TicketStatus.active;
  event_id = some 1;
  code = none;
  ticket_id = none;
  email = none;
  page = 1;
  page_size = 20;
}

last_digits : (last_four "ABC123456" ≡ "3456") × (last_four "AB" ≡ "AB")
unfolding last_four drop_chars
last_digits = (refl, refl)

one_row : map (λ r. r.event.organizer_id) (ticket_rows sold false) ≡ 1 ∷ []
unfolding ticket_rows row_select join_user joined scalar
one_row = refl

-- The user is joined for the filter by e-mail, and no account has the key.
no_user : ticket_rows sold true ≡ []
unfolding ticket_rows row_select join_user joined scalar
no_user = refl

list_organizer_tickets-IsPublic_example :
    All
      (λ item.
        ((r : TicketRow) × Shows (λ k. 300 + k) sold false r item × (r.event.organizer_id ≡ 1))
        × IsPublic item.holder)
      (list_organizer_tickets (λ k. 300 + k) sold 1 query).items
unfolding exists
list_organizer_tickets-IsPublic_example =
    list_organizer_tickets-IsPublic (λ k. 300 + k) sold 1 query (refl, tt)
