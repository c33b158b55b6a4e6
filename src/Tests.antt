-- ===== src/Tests.antt =====
-- The theorems at concrete inputs, and tests of the definitions.
pub mod PlainList
pub mod Fixtures
pub mod Device
pub mod Collector
pub mod Payloads
pub mod Database
pub mod Backends
pub mod Tool
pub mod Launch
pub mod Whole
