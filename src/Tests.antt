-- ===== src/Tests.antt =====
-- Runs of the code at concrete inputs, most of them those of the source's own tests, and the theorems
-- applied to such inputs.
pub mod Fixtures
pub mod Senml
pub mod Domain
pub mod Ingest
pub mod Broker
pub mod Matter
pub mod Device
pub mod Main
pub mod System
pub mod Traces
pub mod Subscribed
pub mod Lifecycle
pub mod Config
pub mod Source
