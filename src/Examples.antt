-- ===== src/Examples.antt =====
-- Concrete inputs on which the model runs, and at which the theorems hold. The functions that the
-- program calls and does not implement are stand-ins with the documented behaviour.
pub mod Codec
pub mod World
mod Intake
mod Relaying
mod Reading
mod Access
mod Serving
mod Running
mod Schema
mod Answers
