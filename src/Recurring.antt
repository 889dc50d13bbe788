-- ===== src/Recurring.antt =====
-- Turnos fijos: recurring-bookings/recurring-bookings.service.ts.
pub mod Weeks
pub mod Apply
pub mod Fijos
pub mod Tests
