-- ===== src/Bookings.antt =====
-- src/bookings/bookings.service.ts
pub mod Model
pub mod Monad
pub mod Statements
pub mod Repricing
pub mod Lifecycle
pub mod Courts
pub mod Steps
pub mod Bill
pub mod Transitions
pub mod Methods
pub mod Amounts
pub mod Pending
pub mod Payments
pub mod Expiry
pub mod Consumos
pub mod Desk
pub mod Bands
pub mod History
pub mod Races
pub mod Money
pub mod Samples
pub mod Tests
