-- ===== src/Delivery.antt =====
-- The way of a message through the parts of the federate.
pub mod Commands
pub mod Flights
pub mod Departures
pub mod Receptions
pub mod Shutdown
pub mod Runs
pub mod Tests
