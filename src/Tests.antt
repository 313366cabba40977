-- ===== src/Tests.antt =====
-- Concrete worlds, and the theorems at them.
pub mod Data
pub mod Rooms
pub mod Sessions
pub mod Requests
pub mod Services
pub mod Sockets
pub mod Departures
pub mod Callers
pub mod Hashes
pub mod Contracts
