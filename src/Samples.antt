-- ===== src/Samples.antt =====
-- Sample databases for the tests: one concert with a floor and a balcony.
use ticketing_system.Prelude.{ℕ, refl, true, false, [], ◌∷◌, none, some, arith}
use ticketing_system.Table.{exists, count, sum}
use ticketing_system.Schema.{
  Database, Event, TicketInstance, Order, Payment, EventStatus, OrderStatus, PaymentStatus,
}
use ticketing_system.Booking.Reserve.{Booking}
use ticketing_system.Invariants.{IsConsistent}

abbrev pub concert : Event
concert = record {
  id = 1;
  name = "Concert";
  organizer_id = 1;
  venue_id = 1;
  event_start = 9000;
  event_end = 9900;
  sales_start = 100;
  sales_end = 8000;
  max_tickets_per_user = some 2;
  age_restriction = none;
  holder_data_required = false;
  description = none;
  status = EventStatus.on_sale;
}

-- Floor 5 is general admission with three tickets left, balcony 6 has the seat 31.
abbrev pub start : Database
start = record {
  accounts = [];
  sessions = [];
  addresses = [];
  organizers = [];
  venues = [];
  events = concert ∷ [];
  sectors =
      record { id = 1; venue_id = 1; name = "Floor"; is_ga = true; base_capacity = 3 }
      ∷ record { id = 2; venue_id = 1; name = "Balcony"; is_ga = false; base_capacity = 1 }
      ∷ [];
  seats = record { id = 31; sector_id = 2; row = 1; number = 1 } ∷ [];
  event_sectors =
      record { id = 5; event_id = 1; sector_id = 1; tickets_left = some 3 }
      ∷ record { id = 6; event_id = 1; sector_id = 2; tickets_left = none }
      ∷ [];
  ticket_types = record { id = 1; name = "Normal" } ∷ [];
  event_ticket_types =
      record { id = 8; event_sector_id = 5; ticket_type_id = 1; price_net = 10000; vat_rate = 123 }
      ∷ record {
        id = 9;
        event_sector_id = 6;
        ticket_type_id = 1;
        price_net = 15050;
        vat_rate = 108;
      }
      ∷ [];
  orders = [];
  ticket_instances = [];
  ticket_holders = [];
  tickets = [];
  invoices = [];
  invoice_counters = [];
  payment_methods = record { id = 1; name = "Card"; is_active = true } ∷ [];
  payments = [];
  next = record {
    user_id = 1;
    address_id = 1;
    organizer_id = 1;
    venue_id = 1;
    sector_id = 3;
    seat_id = 32;
    event_id = 2;
    event_sector_id = 7;
    event_ticket_type_id = 10;
    ticket_type_id = 2;
    payment_method_id = 2;
    order_id = 1;
    ticket_instance_id = 1;
    ticket_holder_id = 1;
    ticket_id = 1;
    invoice_id = 1;
    payment_id = 1;
  };
}

abbrev pub floor_booking : ℕ → Booking
floor_booking user = record {
  user_id = user;
  event_id = 1;
  event_ticket_type_id = 8;
  seat_id = none;
  started = 200;
  checked = 201;
  now = 202;
}

abbrev pub order_of : OrderStatus → Order
order_of s = record {
  id = 1;
  user_id = 7;
  total_price = 12300;
  reserved_until = 900000202;
  status = s;
  invoice_requested = false;
}

abbrev pub item : TicketInstance
item = record {
  id = 1;
  event_ticket_type_id = 8;
  seat_id = none;
  event_id = 1;
  order_id = 1;
  price_net_snapshot = 10000;
  vat_rate_snapshot = 123;
  price_gross_snapshot = 12300;
  ticket_type_name_snapshot = "Normal";
}

-- User 7 has one ticket of the floor in an order.
abbrev pub with_order_of : OrderStatus → Database
with_order_of s = record start {
  event_sectors =
      record { id = 5; event_id = 1; sector_id = 1; tickets_left = some 2 }
      ∷ record { id = 6; event_id = 1; sector_id = 2; tickets_left = none }
      ∷ [];
  orders = order_of s ∷ [];
  ticket_instances = item ∷ [];
  next = record (start.next) { order_id = 2; ticket_instance_id = 2 };
}

abbrev pub card_payment : Payment
card_payment = record {
  id = 1;
  order_id = 1;
  payment_method_id = 1;
  amount = 12300;
  provider = "test";
  status = PaymentStatus.requires_action;
  idempotency_key = 77;
  paid_at = none;
}

-- A payment of the order is in progress.
abbrev pub paying : Database
paying = record (with_order_of OrderStatus.awaiting_payment) {
  payments = card_payment ∷ [];
  next = record ((with_order_of OrderStatus.awaiting_payment).next) { payment_id = 2 };
}

pub start-IsConsistent : IsConsistent start
unfolding exists count
start-IsConsistent = record {
  keyed = record {
    sectors = (refl, (refl, tt));
    event_sectors = (refl, (refl, tt));
    event_ticket_types = (refl, (refl, tt));
    orders = tt;
    ticket_instances = tt;
    orders_below = tt;
    instances_below = tt;
    instances_ordered = tt;
  };
  active = λ _. omega arith;
  seated = λ _ _. omega arith;
  priced = tt;
}

pub with_order_of-IsConsistent : (s : OrderStatus) → IsConsistent (with_order_of s)
unfolding exists count sum
with_order_of-IsConsistent s = record {
  keyed = record {
    sectors = (refl, (refl, tt));
    event_sectors = (refl, (refl, tt));
    event_ticket_types = (refl, (refl, tt));
    orders = (refl, tt);
    ticket_instances = (refl, tt);
    orders_below = (omega arith, tt);
    instances_below = (omega arith, tt);
    instances_ordered = (omega arith, tt);
  };
  active = λ _. ground arith;
  seated = λ _ _. ground arith;
  priced = ((λ _. refl), tt);
}
