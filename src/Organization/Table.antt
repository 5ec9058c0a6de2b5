-- ===== src/Organization/Table.antt =====
-- What the table `organization` holds at all times: its primary key, its checks, its unique sibling
-- codes, and a forest. The children prove that the statements keep it.
pub mod Keys
pub mod Siblings
pub mod Preserve
use go_web_service.Prelude.{String, ◌≡◌, ◌≢◌, true, some, List, All}
use go_web_service.Organization.Code.{matches_code}
use go_web_service.Organization.Entities.{Organization}
use go_web_service.Organization.Schema.{find_row, same_key}
use go_web_service.Organization.Forest.{IsForest}

-- Every listed row is the one that its key finds.
abbrev pub HasKeys : List Organization → Type 0
HasKeys rows = All (λ r. find_row r.id rows ≡ some r) rows

abbrev pub IsChecked : Organization → Type 0
IsChecked r = (matches_code r.code ≡ true) × (r.name ≢ "")

-- No two rows have one parent and one code.
abbrev pub HasSiblings : List Organization → Type 0
HasSiblings rows =
    (i j : String) (a b : Organization)
    → find_row i rows ≡ some a
    → find_row j rows ≡ some b
    → same_key a b ≡ true
    → i ≡ j

pub record IsTable (rows : List Organization) : Type 0 where
  pub keys : HasKeys rows
  pub checks : (id : String) (r : Organization) → find_row id rows ≡ some r → IsChecked r
  pub siblings : HasSiblings rows
  pub forest : IsForest rows
