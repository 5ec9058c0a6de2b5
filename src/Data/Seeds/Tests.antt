-- ===== src/Data/Seeds/Tests.antt =====
-- A seeder of rows and of files over a state that carries the rows alone.
use go_web_service.Prelude.{
  ℕ, String, ◌≡◌, ◌↔◌, ◌⊎◌, refl, Bool, true, false, Option, none, some, List, [], ◌∷◌, ◌==◌,
  if◌then◌else◌, Error, Result, ok,
}
use go_web_service.Database.{Database}
use go_web_service.Database.Engine.Sample.{engine}
use go_web_service.Data.Seeds.{
  Counts, Report, Contribution, Seeder, lookup, set_count, new_seeder, unread_key, apply_all,
  write_all, decoded, read_seed, written, checked, seed_state, seed,
}
use go_web_service.Data.Seeds.Composition.{new_seeder_iff, wired}
use go_web_service.Data.Seeds.Rows.{IsKept, IsSeeded, seed-IsSeeded}
use go_web_service.Data.Seeds.Counting.{keys_of, seed-counts}

abbrev empty : Database Bool
empty = record { organizations = []; images = []; owners = []; tree = false; outbox = [] }

-- A file is its state's rows by key, each a number.
abbrev demo : List (String × ℕ)
demo = ("organizations", 2) ∷ []

abbrev state_file : String → Option (Result (List (String × ℕ)))
state_file name = if name == "demo" then some (ok demo) else none

abbrev lost : Error → Counts
lost e = []

abbrev organizations : Contribution ℕ (Database Bool)
organizations = record {
  key = "organizations";
  apply = some (λ rows db. ok (rows, record db { tree = true }));
  write = none;
}

abbrev logos : Contribution ℕ (Database Bool)
logos = record { key = "logos"; apply = none; write = some (λ rows db. ((rows, none), db)) }

abbrev both : List (Contribution ℕ (Database Bool))
both = organizations ∷ logos ∷ []

abbrev seeder : Seeder ℕ (Database Bool)
seeder = record {
  all = both;
  rows =
      record { key = "organizations"; apply = λ rows db. ok (rows, record db { tree = true }) }
      ∷ [];
  files = record { key = "logos"; write = λ rows db. ((rows, none), db) } ∷ [];
}

new_seeder_iff_example :
    (new_seeder both ≡ ok seeder) ↔ ((wired [] both ≡ true) × (seeder ≡ seeder))
new_seeder_iff_example = new_seeder_iff both {s = seeder}

abbrev report : Report
report = record { counts = some (("organizations", 2) ∷ ("logos", 0) ∷ []); failure = none }

abbrev seeded : Database Bool
seeded = record { organizations = []; images = []; owners = []; tree = true; outbox = [] }

seed-IsSeeded_example :
    IsKept state_file ok lost engine report empty seeded
    ⊎ IsSeeded state_file ok lost engine seeder "demo" empty report seeded
unfolding lookup set_count unread_key apply_all write_all decoded read_seed written checked
    seed_state seed
seed-IsSeeded_example =
    seed-IsSeeded state_file ok lost engine seeder "demo" empty {r = report} {db' = seeded} refl

seed-counts_example :
    (n : Counts) × (some (("organizations", 2) ∷ ("logos", 0) ∷ []) ≡ some n)
    × (keys_of n ≡ "organizations" ∷ "logos" ∷ [])
    × (lookup "logos" n ≡ some 0)
unfolding lookup set_count unread_key apply_all write_all decoded read_seed written checked
    seed_state seed
seed-counts_example =
    seed-counts state_file ok lost engine seeder "demo" "logos" demo empty {r = report}
      {db' = seeded} refl refl refl refl
