-- ===== src/Config/Admin/Layers.antt =====
-- The state that layered files and the environment name.
use go_web_service.Prelude.{
  String, ◌≡◌, refl, Option, none, some, List, [], ◌∷◌, arith, if◌then◌else◌, ◌==◌, Option-cases,
  inl, inr,
}
use go_web_service.Config.Admin.{AdminConfig, seed_state, merge, finalize, or_none}

abbrev pub merge_all : AdminConfig → List AdminConfig → AdminConfig
merge_all c [] = c
merge_all c (l ∷ ls) = merge_all (merge c (some l)) ls

-- What the last layer that sets a name sets, an explicit empty name among them.
abbrev pub last_set : Option String → List AdminConfig → Option String
last_set found [] = found
last_set found (l ∷ ls) = elim l.seed [
  | none ↦ last_set found ls
  | some name ↦ last_set (some name) ls
]

merge_all-last_set :
    (c : AdminConfig) (ls : List AdminConfig) → (merge_all c ls).seed ≡ last_set c.seed ls
unfolding merge
merge_all-last_set c [] = refl
merge_all-last_set c (l ∷ ls) = elim (Option-cases l.seed) [
  | inl unset ↦ ground (arith, merge_all-last_set (merge c (some l)) ls)
  | inr (name, found) ↦ ground (arith, merge_all-last_set (merge c (some l)) ls)
]

-- The finalized state's name is the environment's where it has one, else that of the last layer that
-- sets the field, so a later layer's explicit empty name clears an earlier one, else none.
pub seed_state-finalize :
    (seed_env : String) (c : AdminConfig) (ls : List AdminConfig)
    → seed_state (finalize seed_env (merge_all c ls))
      ≡ (if seed_env == "" then or_none (last_set c.seed ls) else seed_env)
unfolding seed_state finalize
seed_state-finalize seed_env c ls = ground (arith, merge_all-last_set c ls)
