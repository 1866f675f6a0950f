-- ===== src/Tests/Source.antt =====
-- The unit tests of the repository, an assertion of a test as an equation of the model. A `let` of an
-- unwrapped result is `Unwraps`. Each JSON text of a test is a payload number, for which `decoder` has what
-- serde_json makes of the text.
pub mod Payloads
pub mod Senml
pub mod Domain
pub mod Ingest
pub mod Matter
pub mod Node
