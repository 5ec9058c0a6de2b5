-- ===== src/Config/Admin.antt =====
-- internal/config/admin.go: the administrative layer's block. `seed_env` is the variable's text, empty
-- where it is unset.
pub mod Layers
use go_web_service.Prelude.{String, Option, none, some, List, [], ◌∷◌, if◌then◌else◌, ◌==◌}
use go_web_service.Config.{overlay}

pub record AdminConfig : Type 0 where
  pub seed : Option String

-- SeedState
unfoldable pub seed_state : AdminConfig → String
seed_state c = elim c.seed [ none ↦ "" | some name ↦ name ]

-- Merge; `none` is a nil source.
unfoldable pub merge : AdminConfig → Option AdminConfig → AdminConfig
merge c none = c
merge c (some src) = record { seed = overlay c.seed src.seed }

abbrev pub or_none : Option String → String
or_none none = ""
or_none (some name) = name

unfoldable pub finalize : String → AdminConfig → AdminConfig
finalize seed_env c =
    if seed_env == ""
    then record { seed = some (or_none c.seed) }
    else record { seed = some seed_env }
