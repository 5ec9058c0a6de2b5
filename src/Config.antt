-- ===== src/Config.antt =====
-- internal/config: the service's own blocks of the configuration. The environment is a parameter:
-- `duration_env` and `int_env` are what a variable, named by its key under the prefix, holds once the
-- library has read it: nothing where it is unset or empty, a value, or the parser's refusal.
-- A duration is its number of nanoseconds, and zero is unset.
pub mod Sweep
pub mod Reads
pub mod Admin
pub mod Root
mod Tests
use go_web_service.Prelude.{
  String, Option, none, some, ℤ, is_zero, if◌then◌else◌, Error, wrap, Result, ok, err,
}

-- `if src.F != 0 { c.F = src.F }`
abbrev pub overlay_duration : ℤ → ℤ → ℤ
overlay_duration old new = if is_zero new then old else new

-- `if src.F != nil { c.F = src.F }`
abbrev pub overlay : {A : Type 0} → Option A → Option A → Option A
overlay old none = old
overlay old (some v) = some v

-- An override read from the environment, onto the value that stands.
abbrev pub overridden : {A : Type 0} → A → Result (Option A) → Result A
overridden old (err e) = err e
overridden old (ok none) = ok old
overridden old (ok (some v)) = ok v
