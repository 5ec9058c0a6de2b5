-- ===== src/App/Telemetry.antt =====
-- internal/app/telemetry.go: the sweeper's hook, which counts each pass and keeps each reclaimer's
-- backlog, and the telemetry's shutdown. A map is its entries; the counter and the log are the records
-- written to them, the first first.
pub mod Backlog
use go_web_service.Prelude.{
  ℕ, String, Bool, true, false, Option, none, some, List, [], ◌∷◌, ◌++◌, if◌then◌else◌, ◌==◌, Error,
}
use go_web_service.App.Reactors.{reclaimers}

-- sweep.Pass
pub record Pass : Type 0 where
  pub name : String
  pub more : Bool
  pub failure : Option Error

-- The values of sweep.outcome.
pub data Outcome : Type 0 where
  outcome_error outcome_more outcome_drained : Outcome

-- sweepMetrics, with what it wrote.
pub record SweepMetrics : Type 0 where
  pub passes : List (String × Outcome)
  pub warned : List Pass
  pub backlogged : List (String × Bool)

-- `m[key] = value`
unfoldable pub put : String → Bool → List (String × Bool) → List (String × Bool)
put key value [] = (key, value) ∷ []
put key value ((k, v) ∷ m) =
    let rest = put key value m in if k == key then (k, value) ∷ m else (k, v) ∷ rest

-- No reclaimer is backlogged at the start.
unfoldable pub unlogged : List String → List (String × Bool)
unlogged [] = []
unlogged (name ∷ names) = (name, false) ∷ unlogged names

-- newSweepMetrics, where the meter refuses no instrument.
unfoldable pub new_sweep_metrics : SweepMetrics
unfolding unlogged
new_sweep_metrics = record { passes = []; warned = []; backlogged = unlogged reclaimers }

unfoldable pub outcome_of : Pass → Outcome
outcome_of p = elim p.failure [
  | some e ↦ Outcome.outcome_error
  | none ↦ if p.more then Outcome.outcome_more else Outcome.outcome_drained
]

unfoldable pub warning : Pass → List Pass
warning p = elim p.failure [ some e ↦ p ∷ [] | none ↦ [] ]

-- pass
unfoldable pub pass : Pass → SweepMetrics → SweepMetrics
unfolding put outcome_of warning
pass p m = record {
  passes = m.passes ++ (p.name, outcome_of p) ∷ [];
  warned = m.warned ++ warning p;
  backlogged = put p.name p.more m.backlogged;
}

-- observe: what the gauge reports per reclaimer.
unfoldable pub observe : List (String × Bool) → List (String × ℕ)
observe [] = []
observe ((name, more) ∷ m) = (name, if more then 1 else 0) ∷ observe m

-- Telemetry.Shutdown, of what the flush returned: the errors logged at warn, and what it returns.
unfoldable pub shutdown : Option Error → List Error × Option Error
shutdown none = ([], none)
shutdown (some e) = (e ∷ [], none)
