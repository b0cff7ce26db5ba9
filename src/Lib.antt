-- ===== src/Lib.antt =====
-- A ticketing system: the services that sell tickets of events, after app/ of this repository.
--
-- Customers reserve tickets of an event that is on sale into a cart (an order that is PENDING),
-- fill in holders and invoice data, check the cart out (AWAITING_PAYMENT), start a payment under an
-- idempotency key and finalise it (COMPLETED), which numbers the invoice and issues the tickets. A
-- clean-up cancels what has expired (CANCELLED). Organizers create events and change them, admins
-- move their status, and lay out venues with their sectors and seats. Users register and keep sessions
-- by refresh tokens; everybody reads lists in pages. All parts work on one database; a request runs in
-- one transaction and changes nothing when it raises.
--
-- Files and the code they model:
-- - Schema: the model classes of app/domain/*/models.py, a record each, and the enums. `Database` is
--   the tables and the next keys of their sequences.
-- - Errors: app/domain/exceptions.py, results that may be an error, `get_db` of app/core/database.py.
-- - Table: the SQL statements that the services use, on lists of rows; its children hold their
--   lemmas.
-- - Booking: app/services/booking_service.py, in Orders (the helpers), Reserve (`reserve_ticket`),
--   Cart (`remove_ticket_instance` to `upsert_invoice`), Checkout (`process_order`, `checkout`,
--   `reopen_cart`) and Cleanup (`cleanup_expired_reservations`).
-- - Payments: `start_payment` and `finalize_payment` of app/services/payment_service.py.
-- - Invoices: the numbering in app/services/invoices_service.py.
-- - Access: `get_current_user_with_roles` of app/core/dependencies/auth.py and the checks of
--   app/core/dependencies/events.py, on a user whose token is verified.
-- - Events: app/services/event_service.py but for the lists, and histories of the requests of
--   app/api/v1/routes/events.py that change events.
-- - Allocation: app/services/event_sectors_service.py but for the bulk creation.
-- - Requests: the routes of app/api/v1/routes/booking.py, cart.py, payments.py and
--   admin_maintenance.py that change the booking tables, and histories of them.
-- - Auth: app/services/auth_service.py with app/domain/auth/crud.py, and histories of the requests of
--   app/api/v1/routes/auth.py.
-- - Users: `change_password` and `update_user_roles` of app/services/users_service.py, and histories of
--   them.
-- - Validation: the validators of app/domain/booking/schemas.py and app/domain/users/schemas.py, with
--   `strip_text` and `check_password_strength` of app/core/utils.
-- - Addresses: app/services/address_service.py but for the list, and
--   app/core/dependencies/addresses.py.
-- - Venues: app/services/venue_service.py but for the lists, and histories of the requests of
--   app/api/v1/routes/venues.py, sectors.py and seats.py.
-- - Pricing: app/services/event_ticket_type_service.py and ticket_type_service.py, and histories of
--   the requests that reach them.
-- - Pagination: app/core/pagination.py, and a client that reads page after page.
-- - Listings: what is read of invoices (app/services/invoices_service.py), orders
--   (orders_service.py) and tickets (tickets_service.py); an inner join is `joined`, a list of rows
--   without those that have no partner.
-- - Responses: app/api/exceptions.py, the answer to each error.
-- - Invariants: what requests preserve. Prelude: names of the library, lists, tests. Samples: the
--   database that the tests run on.
--
-- A service becomes a function from the database and its arguments to a result, which is an error
-- or a value with the new database. Its helpers are functions of their own, under the names of the
-- source without the leading underscore; the children of a module prove what it does.
--
-- Representation: ids and prices are natural numbers, prices in cents and VAT rates in hundredths,
-- so `Decimal` arithmetic is exact; timestamps are microseconds. The clock is read by the caller:
-- each reading is an argument. The Numeric columns are bounded where
-- offers, ticket instances and totals of orders are written, and the Integer columns of sectors and
-- seats; 32-bit keys are not bounded. Texts that are validated or compared without their case are lists of code points, of which the ASCII letters
-- have two cases and the ASCII blanks are white space; other texts are native. Reading page after page
-- has as fuel the number of pages that the first page names, which is enough. Loops are recursions
-- on lists of rows; the digits of a number are produced with one unit of fuel more than the number,
-- which is enough as each division by ten lowers it.
--
-- Not modelled: audit spans and the context of errors (they change no result), row locks (requests
-- run one after the other, which the locks are there to bring about), created_at columns but where a list
-- is ordered by them, the response objects that only copy a row, organizer_service.py,
-- the list of users, the bulk creation of event sectors (its rows need not have the same columns),
-- the lists of events, venues and addresses, the changes of payment methods, `distinct_on` of `paginate`
-- (no caller gives it), a bulk creation of nothing (the schemas ask for one element), the decoding of
-- tokens, the checks of e-mail addresses and phone numbers (libraries), migrations and the audit worker.
-- Parameters: how the ORM deletes what has children (`nullifies`), the random ticket codes (taken as
-- distinct), refresh tokens and their hashes, the hash of a password, the fiscal year of a time, the
-- times of creation that lists are ordered by, and the database's order of texts. The sessions are in
-- UTC, for the default of `reserved_until`. An idempotency key is the number its UUID stands for.
pub mod Prelude
pub mod Errors
pub mod Table
pub mod Schema
pub mod Auth
pub mod Booking
pub mod Invariants
pub mod Access
pub mod Addresses
pub mod Allocation
pub mod Events
pub mod Invoices
pub mod Pagination
pub mod Payments
pub mod Pricing
pub mod Requests
pub mod Users
pub mod Validation
pub mod Venues
pub mod Responses
pub mod Listings
pub mod Samples
