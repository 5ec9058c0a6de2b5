-- ===== src/Organization/Schema.antt =====
-- data/migrations: the table `organization` with its constraints, and the keys into it. A statement
-- that breaks a constraint is refused with sqlate's ConstraintError, its class and the name.
pub mod Rows
use go_web_service.Prelude.{
  String, ◌≡◌, Bool, true, false, not, ◌&&◌, Option, none, some, List, [], ◌∷◌, ◌++◌, any, keep,
  if◌then◌else◌, ◌==◌, Error, Sentinel, sentinel, Typed, typed, Result, ok, err,
}
use go_web_service.Organization.Code.{matches_code}
use go_web_service.Organization.Entities.{Organization}

unfoldable pub violation : Sentinel → String → Error
violation class name = typed (Typed.constraint_error class name) name (sentinel class)

abbrev pub same_parent : Option String → Option String → Bool
same_parent none none = true
same_parent none (some _) = false
same_parent (some _) none = false
same_parent (some a) (some b) = a == b

abbrev pub is_parent : String → Option String → Bool
is_parent id none = false
is_parent id (some p) = p == id

-- The row under a primary key.
unfoldable pub find_row : String → List Organization → Option Organization
find_row id [] = none
find_row id (r ∷ rs) = let rest = find_row id rs in if r.id == id then some r else rest

abbrev pub is_present : Option Organization → Bool
is_present none = false
is_present (some _) = true

-- The foreign key parent_id.
unfoldable pub parent_exists : List Organization → Option String → Bool
parent_exists rows none = true
parent_exists rows (some p) = is_present (find_row p rows)

-- UNIQUE NULLS NOT DISTINCT (parent_id, code)
abbrev pub same_key : Organization → Organization → Bool
same_key r s = same_parent s.parent_id r.parent_id && s.code == r.code

-- The first constraint that the row breaks beside the other rows of the table.
unfoldable pub constraint_fault : List Organization → Organization → Option Error
unfolding violation parent_exists
constraint_fault others r =
    if not (matches_code r.code)
    then some (violation Sentinel.check_violation "cc_organization_code")
    else if r.name == ""
    then some (violation Sentinel.check_violation "cc_organization_name")
    else if is_parent r.id r.parent_id
    then some (violation Sentinel.check_violation "cc_organization_parent_not_self")
    else if any (same_key r) others
    then some (violation Sentinel.unique_violation "uq_organization_parent_code")
    else if parent_exists others r.parent_id
    then none
    else some (violation Sentinel.foreign_key_violation "organization_parent_id_fkey")

-- The rows but the one under the key.
unfoldable pub remove_row : String → List Organization → List Organization
remove_row id [] = []
remove_row id (r ∷ rs) = let rest = remove_row id rs in if r.id == id then rest else r ∷ rest

-- The table with a row put in the place of the one under its key.
unfoldable pub replace_row : Organization → List Organization → List Organization
replace_row r' [] = []
replace_row r' (r ∷ rs) = (if r.id == r'.id then r' else r) ∷ replace_row r' rs
