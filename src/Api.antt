-- ===== src/Api.antt =====
-- The HTTP controllers: each calls a method of a service and publishes what came of it. The route's
-- parameters, the body and the identity are arguments. `between` is what other requests do before a
-- controller's own queries, after the method of the service has returned.
pub mod Applications
pub mod Rooms
pub mod Sessions
pub mod Chat
pub mod Queries
pub mod Bodies
pub mod AdminBodies
pub mod Announce
