-- ===== src/App/Tests.antt =====
-- The sweeper of the three reclaimers, and two passes of one of them.
use go_web_service.Prelude.{
  String, ◌≡◌, refl, true, false, some, none, List, [], ◌∷◌, any, ◌==◌, ℤ, pos, Error,
}
use go_web_service.Data.Seeds.{lookup}
use go_web_service.App.Reactors.{
  reclaimers, Policy, Registration, registered, counted, registrations,
}
use go_web_service.App.Reactors.Names.{IsRegistered, registrations-named}
use go_web_service.App.Telemetry.{Pass, unlogged, new_sweep_metrics, observe}
use go_web_service.App.Telemetry.Backlog.{run, backlogged-observe}

abbrev built : List (String × ℤ)
built = ("inbox", pos 3) ∷ ("files", pos 1) ∷ ("outbox", pos 2) ∷ []

abbrev policy : Policy
policy = record { interval = pos 30; budget = pos 100 }

abbrev registered_all : List (Registration ℤ)
registered_all =
    record { name = "files"; reclaimer = pos 1; policy = policy }
    ∷ record { name = "outbox"; reclaimer = pos 2; policy = policy }
    ∷ record { name = "inbox"; reclaimer = pos 3; policy = policy }
    ∷ []

registrations-named_example :
    IsRegistered built policy registered_all × (any (λ n. n == "inbox") reclaimers ≡ true)
unfolding registrations registered counted lookup
registrations-named_example =
    registrations-named built policy "inbox" {r = pos 3} {regs = registered_all} refl refl

abbrev passes : List Pass
passes =
    record { name = "files"; more = false; failure = none }
    ∷ record { name = "files"; more = true; failure = some (Error.plain "refused") }
    ∷ record { name = "inbox"; more = false; failure = none }
    ∷ []

backlogged-observe_example :
    lookup "files" (observe (run passes new_sweep_metrics).backlogged) ≡ some 1
unfolding unlogged lookup
backlogged-observe_example = backlogged-observe "files" passes refl
