-- ===== src/Core.antt =====
-- app/core: the settings, the exceptions and their responses; and what every other part stands on,
-- the calls that may raise and the floating-point numbers.
pub mod Errors
pub mod Action
pub mod Float
pub mod Settings
