-- ===== src/Listings.antt =====
-- What users, organizers and administrators read: app/services/invoices_service.py from
-- _ti_agg_subquery on, orders_service.py and tickets_service.py.
pub mod Joins
pub mod Invoices
pub mod Orders
pub mod Tickets
