-- ===== src/Organization/Forest.antt =====
-- The organization tree: every row reaches a root through its parents. The operations on the table
-- keep it so.
pub mod Walk
pub mod Updates
use go_web_service.Prelude.{ℕ, zero, suc, String, ◌≡◌, none, some, List}
use go_web_service.Organization.Entities.{Organization}
use go_web_service.Organization.Schema.{find_row}

-- The row under the id, and the chain of its parents up to a root, with the number of rows on it.
pub data Rooted (rows : List Organization) : ℕ → String → Type 0 where
  top :
      {id : String} (r : Organization)
      → find_row id rows ≡ some r
      → r.parent_id ≡ none
      → Rooted rows (suc zero) id
  under :
      {n : ℕ} {id : String} (r : Organization) (p : String)
      → find_row id rows ≡ some r
      → r.parent_id ≡ some p
      → Rooted rows n p
      → Rooted rows (suc n) id

-- Every row has such a chain: no cycle, and no parent that is not there.
abbrev pub IsForest : List Organization → Type 0
IsForest rows =
    (id : String) (r : Organization) → find_row id rows ≡ some r → (n : ℕ) × Rooted rows n id
