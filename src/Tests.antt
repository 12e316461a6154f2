-- ===== src/Tests.antt =====
-- Tests on concrete inputs, and the theorems at inputs that meet their hypotheses.
pub mod Simulation
mod Encoding
mod Environment
mod Security
mod Orchestrator
mod Services
mod Startup
mod Platform
mod Calls
mod FirstStart
mod Schema
mod Scripts
