-- ===== src/Booking/Reserve/Success.antt =====
-- When a reservation of general admission succeeds, and with what.
use ticketing_system.Prelude.{◌≤◌, ◌≡◌, true, none, some, String, ◌<◌}
use ticketing_system.Prelude.Int.{pos}
use ticketing_system.Errors.{ok}
use ticketing_system.Table.{scalar}
use ticketing_system.Schema.{
  Database, Event, Order, Sector, EventSector, EventTicketType, TicketInstance, OrderStatus,
  price_limit, rate_limit,
}
use ticketing_system.Booking.Orders.{
  require_event_on_sale_status, load_ett_for_event, is_users, ensure_user_ticket_limit_not_exceeded,
  is_available, bump_total, extend_reservation, gross_price,
}
use ticketing_system.Booking.Reserve.{sector_of, ticket_type_name, new_ticket_instance, Booking}
use ticketing_system.Booking.Reserve.Outcome.{with_order}

-- What a reservation without a seat looks up and finds.
pub record IsAvailable (db : Database) (b : Booking) (ett : EventTicketType) (o : Order)
    (name : String) : Type 0 where
  pub event : Event
  pub event_sector : EventSector
  pub sector : Sector
  pub stocked : EventSector
  pub event_found : require_event_on_sale_status db b.event_id b.checked ≡ ok event
  pub none_awaiting : scalar (is_users b.user_id OrderStatus.awaiting_payment) db.orders ≡ none
  pub ett_found : load_ett_for_event db b.event_ticket_type_id b.event_id ≡ ok ett
  pub sector_found : sector_of db ett ≡ ok (event_sector, sector)
  pub general : sector.is_ga ≡ true
  pub no_seat : b.seat_id ≡ none
  pub order_found :
      scalar (is_users b.user_id OrderStatus.pending) (with_order db b).orders ≡ some o
  pub below_limit : ensure_user_ticket_limit_not_exceeded (with_order db b) b.user_id event ≡ ok tt
  pub name_found : ticket_type_name (with_order db b) ett ≡ ok name
  pub ticket_left :
      scalar (is_available ett.event_sector_id) (with_order db b).event_sectors ≡ some stocked
  pub taxed : 100 ≤ ett.vat_rate
  pub rate_fits : ett.vat_rate < rate_limit
  pub net_fits : ett.price_net < price_limit
  pub gross_fits : gross_price ett.price_net ett.vat_rate < price_limit
  pub total_fits :
      (extend_reservation
        (bump_total o (pos (gross_price ett.price_net ett.vat_rate)))
        b.now).total_price
      < price_limit

abbrev pub instance_for : Database → Booking → EventTicketType → Order → String → TicketInstance
instance_for db b ett o name = new_ticket_instance (with_order db b) ett none b.event_id o.id name
