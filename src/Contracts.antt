-- ===== src/Contracts.antt =====
-- The contract of the HTTP interface: what server/tool/generate-contracts.mjs makes of the schemas of
-- a request, and what the classes that it has written let through.
pub mod Schema
pub mod Generator
pub mod Validation
pub mod Checks
pub mod Described
pub mod Presence
pub mod Conformance
pub mod Typing
pub mod Dtos
pub mod Bodies
pub mod Parameters
