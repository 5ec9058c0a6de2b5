-- ===== src/Slab/Repo/Tests.antt =====
-- A checkout whose slab module lies under tools.
use go_web_service.Prelude.{
  String, ◌≡◌, ◌↔◌, none, some, Option, List, [], ◌∷◌, if◌then◌else◌, ◌==◌, refl, Error, Result, ok,
}
use go_web_service.Slab.Repo.{
  Scan, find_from, declares, declares_by, is_directive, names_module, trim, trim_front, trim_back,
}
use go_web_service.Slab.Repo.Nearest.{Nearest, find_from_iff}

abbrev scan : List String → Scan
scan lines = record { lines = lines; failure = none }

abbrev go_mod : List String → Result (Option Scan)
go_mod [] = ok none
go_mod (segment ∷ parent) =
    if segment == "slab"
    then ok (some (scan ("module github.com/standards-lab/go-web-service/tools/slab" ∷ [])))
    else if segment == "service"
    then ok
        (some (scan ("// the service" ∷ "module \"github.com/standards-lab/go-web-service\"" ∷ [])))
    else ok none

abbrev start : List String
start = "slab" ∷ "tools" ∷ "service" ∷ []

service_found : find_from go_mod (Error.plain "not found") start ≡ ok ("service" ∷ [])
unfolding find_from declares declares_by is_directive names_module trim trim_front trim_back
service_found = refl

find_from_iff_example :
    (find_from go_mod (Error.plain "not found") start ≡ ok ("service" ∷ []))
    ↔ Nearest go_mod (Error.plain "not found") start ("service" ∷ [])
find_from_iff_example = find_from_iff go_mod (Error.plain "not found") start ("service" ∷ [])
