-- ===== src/Booking.antt =====
-- app/services/booking_service.py: reservations, the cart, checkout and the clean-up of expired
-- reservations. The children `Orders` to `Cleanup` hold its functions in the order of the file.
pub mod Orders
pub mod Reserve
pub mod Cart
pub mod Checkout
pub mod Cleanup
