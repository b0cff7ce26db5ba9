-- ===== src/Schema.antt =====
-- The tables of app/domain/*/models.py: one record per model class, one data type per enum.
-- Timestamps count microseconds, prices whole cents, VAT rates hundredths (1.23 is 123).
mod Statuses
mod People
mod Catalog
mod Sales
mod Tables
pub use Statuses.*
pub use People.*
pub use Catalog.*
pub use Sales.*
pub use Tables.*
