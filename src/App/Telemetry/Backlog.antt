-- ===== src/App/Telemetry/Backlog.antt =====
-- What the gauge reports after any passes.
use go_web_service.Prelude.{
  ℕ, String, String-cases, ◌≡◌, refl, ◌∙◌, Bool, false, Bool-cases, inl, inr, some, List, [], ◌∷◌,
  arith, ◌==◌, eq_iff, if◌then◌else◌,
}
use go_web_service.Data.Seeds.{lookup}
use go_web_service.App.Reactors.{reclaimers}
use go_web_service.App.Telemetry.{
  Pass, SweepMetrics, put, unlogged, new_sweep_metrics, pass, observe,
}

abbrev pub run : List Pass → SweepMetrics → SweepMetrics
run [] m = m
run (p ∷ ps) m = run ps (pass p m)

-- What the last pass under the name reported of more, or `b` where there is none.
abbrev pub last_more : String → Bool → List Pass → Bool
last_more name b [] = b
last_more name b (p ∷ ps) = if p.name == name then last_more name p.more ps else last_more name b ps

abbrev pub gauge : Bool → ℕ
gauge b = if b then 1 else 0

lookup-put :
    (name key : String) (b : Bool) (m : List (String × Bool))
    → lookup name (put key b m) ≡ (if key == name then some b else lookup name m)
unfolding lookup put
lookup-put name key b [] = refl
lookup-put name key b ((k, v) ∷ m) = elim (String-cases k key) [
  | inl same ↦ grind (arith, eq_iff)
  | inr (other, test) ↦ grind (arith, lookup-put name key b m, eq_iff)
]

lookup-observe :
    (name : String) (m : List (String × Bool)) {b : Bool}
    → lookup name m ≡ some b
    → lookup name (observe m) ≡ some (gauge b)
unfolding lookup observe
lookup-observe name [] h = cc
lookup-observe name ((k, v) ∷ m) h = elim (Bool-cases (k == name)) [
  | inl found ↦ ground (arith, rw (lookup, found) at h, found)
  | inr other ↦ rw other (lookup-observe name m (rw (lookup, other) at h))
]

backlogged-run :
    (name : String) (ps : List Pass) (m : SweepMetrics) (b : Bool)
    → lookup name m.backlogged ≡ some b
    → lookup name (run ps m).backlogged ≡ some (last_more name b ps)
unfolding pass
backlogged-run name [] m b h = h
backlogged-run name (p ∷ ps) m b h = elim (Bool-cases (p.name == name)) [
  | inl same ↦ rw same (
      backlogged-run name ps (pass p m) p.more
        (lookup-put name p.name p.more m.backlogged ∙ rw same))
  | inr other ↦ rw other (
      backlogged-run name ps (pass p m) b (lookup-put name p.name p.more m.backlogged ∙ rw other h))
]

-- The gauge reports every reclaimer from the start: after any passes, 1 under a reclaimer's name
-- where its last pass reported more, a failed one too, and 0 where it did not or none has run.
pub backlogged-observe :
    (name : String) (ps : List Pass)
    → lookup name (unlogged reclaimers) ≡ some false
    → lookup name (observe (run ps new_sweep_metrics).backlogged)
      ≡ some (gauge (last_more name false ps))
unfolding new_sweep_metrics
backlogged-observe name ps h =
    lookup-observe name _ (backlogged-run name ps new_sweep_metrics false h)
