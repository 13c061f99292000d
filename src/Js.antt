-- ===== src/Js.antt =====
-- The part of JavaScript that the services lean on: run-time values, texts, exceptions and checks.
pub mod Text
pub mod Value
pub mod Check
pub mod Keys
pub mod Effect
pub mod Session
