-- ===== src/App/Reactors.antt =====
-- internal/app/reactors.go: the sweeper's registrations, and the nudge. A reclaimer is of the type `R`,
-- and the map of those built is its entries.
pub mod Names
use go_web_service.Prelude.{
  ℕ, String, Option, none, some, List, [], ◌∷◌, length, if◌then◌else◌, ◌=ℕ=◌, ℤ, Error, Result, ok,
  err,
}
use go_web_service.Data.Seeds.{lookup}

abbrev pub reclaim_files : String
reclaim_files = "files"

abbrev pub reclaim_outbox : String
reclaim_outbox = "outbox"

abbrev pub reclaim_inbox : String
reclaim_inbox = "inbox"

abbrev pub reclaimers : List String
reclaimers = reclaim_files ∷ reclaim_outbox ∷ reclaim_inbox ∷ []

-- sweep.Policy
pub record Policy : Type 0 where
  pub interval : ℤ
  pub budget : ℤ

-- sweep.Registration
pub record Registration (R : Type 0) : Type 0 where
  pub name : String
  pub reclaimer : R
  pub policy : Policy

-- The loop over the names.
unfoldable pub registered :
    {R : Type 0} → List (String × R) → Policy → List String → Result (List (Registration R))
registered built policy [] = ok []
registered built policy (name ∷ names) =
    let rest = registered built policy names in
    elim (lookup name built) [
      | none ↦ err (Error.plain "no reclaimer is built under the name")
      | some r ↦ elim rest [
        | err e ↦ err e
        | ok regs ↦ ok (record { name = name; reclaimer = r; policy = policy } ∷ regs)
      ]
    ]

unfoldable pub counted :
    {R : Type 0}
    → List (String × R)
    → Result (List (Registration R))
    → Result (List (Registration R))
counted built (err e) = err e
counted built (ok regs) =
    if length built =ℕ= length regs
    then ok regs
    else err (Error.plain "the reclaimers built are not those named")

unfoldable pub registrations :
    {R : Type 0} → List (String × R) → Policy → Result (List (Registration R))
unfolding registered counted
registrations built policy = counted built (registered built policy reclaimers)

-- Nudge, on the sweeper that is bound, if one is: the names that it is asked for.
unfoldable pub nudge : Option (List String) → Option (List String)
nudge none = none
nudge (some asked) = some (reclaim_files ∷ asked)
