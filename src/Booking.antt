-- ===== src/Booking.antt =====
-- Booking hours: internal/application/v1/service/timesheet_application_service.go, over the
-- in-memory repositories. `daily_cap` is the administered limit at the time of the call. Metrics
-- and the names shown beside a result are left out: they change nothing that is stored.
pub mod Checks
pub mod Create
pub mod Correct
pub mod Transfer
pub mod CopyWeek
pub mod Report
pub mod Tests
