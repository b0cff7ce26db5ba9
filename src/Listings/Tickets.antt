-- ===== src/Listings/Tickets.antt =====
-- The tickets that are listed: app/services/tickets_service.py. `created_at` is the column of that name
-- by the ticket's key, which the database fills.
pub mod Rows
mod Tests
use Prim.Native.String as S
use ticketing_system.Prelude.{
  ℕ, zero, suc, ◌-◌, Bool, true, false, List, [], ◌∷◌, ◌++◌, Option, none, some, String, ◌==◌,
  is_some,
}
use mathlib.Core.Option
use ticketing_system.Prelude.Strings.{same_string}
use ticketing_system.Prelude.Text.{Text}
use ticketing_system.Table.{scalar}
use ticketing_system.Schema.{
  Database, Order, TicketInstance, TicketHolder, Ticket, TicketStatus, Event, Venue, Sector, Seat,
  EventSector, EventTicketType, Account,
}
use ticketing_system.Pagination.{Page, paginate, page_of}
use ticketing_system.Listings.Joins.{joined, ◌>>=◌, if_given, latest_first, same_email}

-- TicketHolderPublicDTO and TicketHolderPrivateDTO
pub data HolderDto : Type 0 where
  public_holder : (id : ℕ) (first_name last_name identification_suffix : String) → HolderDto
  private_holder : (id : ℕ) (first_name last_name identification_number : String) → HolderDto

pub drop_chars : ℕ → String → String
drop_chars zero s = s
drop_chars (suc n) S.[] = S.[]
drop_chars (suc n) (S.◌∷◌ c s) = drop_chars n s

-- s[-4:]
pub last_four : String → String
last_four s = drop_chars (S.count s - 4) s

-- A row of the joined tables; `user` is joined only for the filter by e-mail.
pub record TicketRow : Type 0 where
  pub ticket : Ticket
  pub ticket_instance : TicketInstance
  pub order : Order
  pub event : Event
  pub venue : Venue
  pub sector : Sector
  pub seat : Option Seat
  pub holder : Option TicketHolder
  pub user : Option Account

abbrev of_seat : Option ℕ → Seat → Bool
of_seat none s = false
of_seat (some seat_id) s = s.id == seat_id

-- _ticket_row_select
pub row_select : Database → Ticket → Option TicketRow
row_select db t = do
  i ← scalar (λ i. i.id == t.ticket_instance_id) db.ticket_instances
  o ← scalar (λ o. o.id == i.order_id) db.orders
  e ← scalar (λ e. e.id == i.event_id) db.events
  v ← scalar (λ v. v.id == e.venue_id) db.venues
  ett ← scalar (λ ett. ett.id == i.event_ticket_type_id) db.event_ticket_types
  es ← scalar (λ es. es.id == ett.event_sector_id) db.event_sectors
  s ← scalar (λ s. s.id == es.sector_id) db.sectors
  some (record {
    ticket = t;
    ticket_instance = i;
    order = o;
    event = e;
    venue = v;
    sector = s;
    seat = scalar (of_seat i.seat_id) db.seats;
    holder = scalar (λ h. h.ticket_instance_id == i.id) db.ticket_holders;
    user = none;
  })

-- base.join(User, User.id == Order.user_id)
pub join_user : Database → Bool → TicketRow → Option TicketRow
join_user db false r = some r
join_user db true r = do
  a ← scalar (λ (a : Account). a.user.id == r.order.user_id) db.accounts
  some (record r { user = some a })

pub ticket_rows : Database → Bool → List TicketRow
ticket_rows db needs_user_join =
    joined (λ (t : Ticket). row_select db t >>= join_user db needs_user_join) db.tickets

-- TicketReadItemDTO
pub record TicketReadItem : Type 0 where
  pub id : ℕ
  pub code : String
  pub status : TicketStatus
  pub created_at : ℕ
  pub event_id : ℕ
  pub event_name : String
  pub event_start : ℕ
  pub venue_name : String
  pub is_ga : Bool
  pub sector_name : String
  pub row : Option ℕ
  pub seat : Option ℕ
  pub ticket_type_name : String
  pub price_gross : ℕ
  pub holder : Option HolderDto

-- _to_holder_dto; the column identification_number is not nullable
pub to_holder_dto : Option TicketHolder → Bool → Option HolderDto
unfolding last_four
to_holder_dto none full = none
to_holder_dto (some h) true =
    some (private_holder h.id h.first_name h.last_name h.identification_number)
to_holder_dto (some h) false =
    some (public_holder h.id h.first_name h.last_name (last_four h.identification_number))

module _ where
  -- Ticket.status == s
  abbrev pub is_ticket_status : TicketStatus → TicketStatus → Bool
  is_ticket_status TicketStatus.active TicketStatus.active = true
  is_ticket_status TicketStatus.refunded TicketStatus.refunded = true
  is_ticket_status TicketStatus.expired TicketStatus.expired = true
  is_ticket_status _ _ = false

-- OrganizerTicketsQueryDTO
pub record OrganizerTicketsQuery : Type 0 where
  pub status : Option TicketStatus
  pub event_id : Option ℕ
  pub code : Option String
  pub ticket_id : Option ℕ
  pub email : Option Text
  pub page : ℕ
  pub page_size : ℕ

-- AdminTicketsQueryDTO
pub record AdminTicketsQuery : Type 0 where
  pub query : OrganizerTicketsQuery
  pub user_id : Option ℕ
  pub organizer_id : Option ℕ

abbrev pub has_email : Text → Option Account → Bool
has_email e none = false
has_email e (some a) = same_email e a.email

abbrev pub status_filter : Option TicketStatus → List (TicketRow → Bool)
status_filter status = if_given status (λ s r. is_ticket_status r.ticket.status s)

-- The filters that the organizer's and the administrator's lists share.
abbrev pub query_filters : OrganizerTicketsQuery → List (TicketRow → Bool)
query_filters query =
    status_filter query.status
    ++ (if_given query.event_id (λ e r. r.event.id == e)
        ++ (if_given query.ticket_id (λ t r. r.ticket.id == t)
            ++ (if_given query.code (λ c r. same_string r.ticket.code c)
                ++ if_given query.email (λ e r. has_email e r.user))))

module _ (created_at : ℕ → ℕ) where
  pub map_ticket_row : Bool → TicketRow → TicketReadItem
  map_ticket_row full r = record {
    id = r.ticket.id;
    code = r.ticket.code;
    status = r.ticket.status;
    created_at = created_at r.ticket.id;
    event_id = r.event.id;
    event_name = r.event.name;
    event_start = r.event.event_start;
    venue_name = r.venue.name;
    is_ga = r.sector.is_ga;
    sector_name = r.sector.name;
    row = Option.map (λ s. s.row) r.seat;
    seat = Option.map (λ s. s.number) r.seat;
    ticket_type_name = r.ticket_instance.ticket_type_name_snapshot;
    price_gross = r.ticket_instance.price_gross_snapshot;
    holder = to_holder_dto r.holder full;
  }

  -- Ticket.created_at.desc(), Ticket.id
  abbrev pub newest_ticket : TicketRow → TicketRow → Bool
  newest_ticket r s =
      latest_first (created_at r.ticket.id) r.ticket.id (created_at s.ticket.id) s.ticket.id

  pub list_tickets_helper :
      Database → List (TicketRow → Bool) → ℕ → ℕ → Bool → Bool → Page TicketReadItem
  list_tickets_helper db filters page page_size needs_user_join full =
      page_of (map_ticket_row full)
        (paginate newest_ticket (λ r. r.ticket.id) filters page page_size
          (ticket_rows db needs_user_join))
        page page_size

  -- UserTicketsQueryDTO is the status and the page.
  pub list_user_tickets : Database → ℕ → Option TicketStatus → ℕ → ℕ → Page TicketReadItem
  list_user_tickets db user_id status page page_size =
      list_tickets_helper db ((λ r. r.order.user_id == user_id) ∷ status_filter status) page
        page_size false true

  pub list_organizer_tickets : Database → ℕ → OrganizerTicketsQuery → Page TicketReadItem
  list_organizer_tickets db organizer_id query =
      list_tickets_helper db ((λ r. r.event.organizer_id == organizer_id) ∷ query_filters query)
        query.page query.page_size (is_some query.email) false

  pub list_admin_tickets : Database → AdminTicketsQuery → Page TicketReadItem
  list_admin_tickets db q =
      list_tickets_helper db
        (query_filters q.query
          ++ (if_given q.organizer_id (λ o r. r.event.organizer_id == o)
              ++ if_given q.user_id (λ u r. r.order.user_id == u)))
        q.query.page q.query.page_size (is_some q.query.email) false
