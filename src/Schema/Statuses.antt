-- ===== src/Schema/Statuses.antt =====
-- The enums of app/domain/booking/models.py, payments/models.py and events/models.py, with `==`.
use ticketing_system.Prelude.{Bool, true, false, ◌≡◌, arith}

pub data OrderStatus : Type 0 where
  pending awaiting_payment completed cancelled : OrderStatus

pub data PaymentStatus : Type 0 where
  requires_action pending completed failed : PaymentStatus

pub data TicketStatus : Type 0 where
  active refunded expired : TicketStatus

pub data InvoiceType : Type 0 where
  person company : InvoiceType

pub data EventStatus : Type 0 where
  awaiting_approval rejected planned on_sale ended cancelled : EventStatus

module _ where
  -- Order.status == s
  abbrev pub is_status : OrderStatus → OrderStatus → Bool
  is_status OrderStatus.pending OrderStatus.pending = true
  is_status OrderStatus.awaiting_payment OrderStatus.awaiting_payment = true
  is_status OrderStatus.completed OrderStatus.completed = true
  is_status OrderStatus.cancelled OrderStatus.cancelled = true
  is_status _ _ = false

  -- Order.status.in_([PENDING, AWAITING_PAYMENT])
  abbrev pub is_active : OrderStatus → Bool
  is_active OrderStatus.pending = true
  is_active OrderStatus.awaiting_payment = true
  is_active _ = false

  -- Order.status.in_([PENDING, AWAITING_PAYMENT, COMPLETED])
  abbrev pub is_counted : OrderStatus → Bool
  is_counted OrderStatus.cancelled = false
  is_counted _ = true

  -- Payment.status.in_([PENDING, REQUIRES_ACTION])
  abbrev pub is_open : PaymentStatus → Bool
  is_open PaymentStatus.pending = true
  is_open PaymentStatus.requires_action = true
  is_open _ = false

  -- Event.status == s
  abbrev pub is_event_status : EventStatus → EventStatus → Bool
  is_event_status EventStatus.awaiting_approval EventStatus.awaiting_approval = true
  is_event_status EventStatus.rejected EventStatus.rejected = true
  is_event_status EventStatus.planned EventStatus.planned = true
  is_event_status EventStatus.on_sale EventStatus.on_sale = true
  is_event_status EventStatus.ended EventStatus.ended = true
  is_event_status EventStatus.cancelled EventStatus.cancelled = true
  is_event_status _ _ = false

pub is_status_eq : (s t : OrderStatus) → is_status s t ≡ true → s ≡ t
is_status_eq s t h = ground arith
