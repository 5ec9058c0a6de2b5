-- ===== src/Slab/Repo/Nearest.antt =====
-- The root that the walk finds.
use go_web_service.Prelude.{
  String, ◌≡◌, subst, ◌↔◌, true, false, Option, List, [], ◌∷◌, arith, inl, inr, Error, Result, ok,
  result_cases,
}
use go_web_service.Slab.Repo.{Scan, declares, find_from}

module _ (go_mod : List String → Result (Option Scan)) (not_found : Error) where
  -- The nearest directory at or above `dir` that declares the module, with every go.mod beneath it
  -- read and found to declare another or none.
  pub data Nearest : List String → List String → Type 0 where
    here : {dir : List String} → declares go_mod dir ≡ ok true → Nearest dir dir
    above :
        {segment : String} {parent found : List String}
        → declares go_mod (segment ∷ parent) ≡ ok false
        → Nearest parent found
        → Nearest (segment ∷ parent) found

  find_from-found :
      {dir found : List String} → Nearest dir found → find_from go_mod not_found dir ≡ ok found
  unfolding find_from
  find_from-found {dir = []} (here h) = rw (find_from, h)
  find_from-found {dir = s ∷ p} (here h) = rw (find_from, h)
  find_from-found (above h n) = rw (find_from, h) (find_from-found n)

  find_from-Nearest :
      (dir : List String) {found : List String}
      → find_from go_mod not_found dir ≡ ok found
      → Nearest dir found
  unfolding find_from
  find_from-Nearest [] h = elim (result_cases (declares go_mod [])) [
    | inr (e, refused) ↦ absurd (ground (arith, rw (find_from, refused) at h))
    | inl (true, found) ↦
        subst (λ (x : List String). Nearest [] x) (ground (arith, rw (find_from, found) at h))
          (here found)
    | inl (false, found) ↦ absurd (ground (arith, rw (find_from, found) at h))
  ]
  find_from-Nearest (segment ∷ parent) h =
      elim (result_cases (declares go_mod (segment ∷ parent))) [
        | inr (e, refused) ↦ absurd (ground (arith, rw (find_from, refused) at h))
        | inl (true, found) ↦
            subst (λ (x : List String). Nearest (segment ∷ parent) x)
              (ground (arith, rw (find_from, found) at h)) (here found)
        | inl (false, found) ↦ above found (find_from-Nearest parent (rw (find_from, found) at h))
      ]

  -- The walk returns exactly the nearest directory, at or above its start, whose go.mod declares
  -- the module, every go.mod beneath that one being read without an error.
  pub find_from_iff :
      (dir found : List String) → (find_from go_mod not_found dir ≡ ok found) ↔ Nearest dir found
  find_from_iff dir found = (λ h. find_from-Nearest dir h, λ n. find_from-found n)
