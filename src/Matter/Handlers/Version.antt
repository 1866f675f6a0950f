-- ===== src/Matter/Handlers/Version.antt =====
-- What the handlers of src/matter take from rs-matter's `Dataver`.
use pv_matter.Common.{ℕ}

-- A random version, its number, and its change.
pub record Dataver (Rand V : Type 0) : Type 0 where
  pub new_rand : Rand → V × Rand
  pub get : V → ℕ
  pub changed : V → V
