-- ===== src/Service.antt =====
-- What a service method is: a function of the world that ends in a value or in an exception, and
-- leaves a world behind in both cases.
pub mod Monad
pub mod Keeps
pub mod Ensures
