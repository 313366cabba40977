-- ===== src/Rooms.antt =====
-- server/src/rooms/rooms.service.ts: rooms, their members and their owner. Join requests are in
-- Rooms/Requests.antt. An argument `others` is what other requests do to the world between the
-- checks of a method and its writes.
pub mod Defs
pub mod Requests
pub mod Methods
pub mod OneOwner
pub mod Writes
pub mod Isolation
pub mod Invariant
pub mod Keyed
pub mod History
pub mod Access
pub mod Snapshot
pub mod Tenants
pub mod TenantMethods
pub mod TenantIsolation
pub mod Effects
pub mod Transfer
pub mod Joining
pub mod Deciding
