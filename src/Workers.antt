-- ===== src/Workers.antt =====
-- The workers that consume deliveries of events.
pub mod Delivery
pub mod Projection
pub mod Alerts
