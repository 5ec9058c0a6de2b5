-- ===== src/Organization/Statements.antt =====
-- domain/organization/statements: what each statement does to the rows. sqlate's guard patterns and
-- the engine's minted ids and clock are not in the repository: they are the parameters.
pub mod Guard
pub mod Outcomes
use go_web_service.Prelude.{
  ℕ, zero, suc, ◌+◌, String, Bool, ◌&&◌, ◌||◌, Option, none, some, List, [], ◌∷◌, ◌++◌, any, keep,
  length, if◌then◌else◌, ◌==◌, Error, Sentinel, sentinel, Result, ok, err,
}
use go_web_service.Database.{Database}
use go_web_service.Database.Transactions.{Tx}
use go_web_service.Organization.Entities.{
  Organization, CreateOrganization, Identity, OrganizationData,
}
use go_web_service.Organization.Schema.{
  find_row, remove_row, replace_row, constraint_fault, is_parent, violation, same_parent,
}

abbrev pub with_rows : {Tree : Type 0} → Database Tree → List Organization → Database Tree
with_rows db rows = record db { organizations = rows }

abbrev pub below : Organization → Option (List Organization) → Option (List Organization)
below r none = none
below r (some rs) = some (r ∷ rs)

-- The ancestors of a row, itself first: the recursive query of in_subtree.sql, over the row that
-- carries the key, then over its parent. `none` is a walk that the fuel did not end.
unfoldable pub ancestors : ℕ → List Organization → String → Option (List Organization)
ancestors zero rows c = none
ancestors (suc fuel) rows c = elim (find_row c rows) [
  | none ↦ some []
  | some r ↦ elim r.parent_id [ none ↦ some (r ∷ []) | some p ↦ below r (ancestors fuel rows p) ]
]

-- in_subtree.sql: how often `node` is among the ancestors of `candidate`, itself included.
unfoldable pub in_subtree : String → String → List Organization → Option ℕ
in_subtree node candidate rows = elim (ancestors (suc (length rows)) rows candidate) [
  | none ↦ none
  | some found ↦ some (length (keep (λ r. r.id == node) found))
]

abbrev pub data_of : Organization → OrganizationData
data_of r = record {
  organization_id = r.id;
  parent_id = r.parent_id;
  code = r.code;
  name = r.name;
  version = r.version;
}

-- stored.sql
unfoldable pub stored : {Tree : Type 0} → String → Database Tree → Result OrganizationData
stored id db = elim (find_row id db.organizations) [
  | none ↦ err (sentinel Sentinel.no_rows)
  | some r ↦ ok (data_of r)
]

-- version.sql, the guard's check
unfoldable pub version : {Tree : Type 0} → String → Database Tree → Option ℕ
version id db = elim (find_row id db.organizations) [ none ↦ none | some r ↦ some r.version ]

-- create.sql, with what the engine mints for the row
module _ {Tree : Type 0} (mint : Database Tree → String) (now : Database Tree → ℕ) where
  unfoldable pub new_row : Option String → String → String → Database Tree → Organization
  new_row parent_id code name db = record {
    id = mint db;
    parent_id = parent_id;
    code = code;
    name = name;
    version = 1;
    created_at = now db;
    updated_at = now db;
  }

  unfoldable pub insert_row : CreateOrganization → Tx (Database Tree) Identity
  unfolding new_row
  insert_row c db =
      let r = new_row c.parent_id c.code c.name db in
      elim (constraint_fault db.organizations r) [
        | none ↦
            ok
              (record { id = r.id; version = r.version }, with_rows db (db.organizations ++ r ∷ []))
        | some e ↦ err e
      ]

-- find_seeded.sql
unfoldable pub find_seeded : Option String → String → List Organization → Option String
find_seeded parent code [] = none
find_seeded parent code (r ∷ rs) =
    let rest = find_seeded parent code rs in
    if (same_parent r.parent_id parent && r.code == code) then some r.id else rest

-- A guarded UPDATE of the row that the guard matches, and the number of rows that it changed.
module _ {Tree : Type 0} (matches : Organization → Bool)
    (change : Organization → Organization) where
  unfoldable pub update_row : List Organization → Database Tree → Result (ℕ × Database Tree)
  update_row [] db = ok (0, db)
  update_row (r ∷ rs) db =
      let rest = update_row rs db in
      if matches r
      then (elim (constraint_fault (remove_row r.id db.organizations) (change r)) [
        | none ↦ ok (1, with_rows db (replace_row (change r) db.organizations))
        | some e ↦ err e
      ])
      else rest

-- delete.sql, with the keys that refer to the row: a child's parent_id, an image's and an owner
-- row's organization_id.
unfoldable pub is_referenced : {Tree : Type 0} → String → Database Tree → Bool
is_referenced id db =
    any (λ s. is_parent id s.parent_id) db.organizations
    || any (λ i. i.organization_id == id) db.images
    || any (λ o. o.organization_id == id) db.owners

-- The key that refuses a delete of a row that one refers to: the first, in the order of the keys'
-- creation. The parent's has the engine's name for a column's key.
unfoldable pub referring_key : {Tree : Type 0} → String → Database Tree → String
referring_key id db =
    if any (λ s. is_parent id s.parent_id) db.organizations
    then "organization_parent_id_fkey"
    else if any (λ i. i.organization_id == id) db.images
    then "fk_organization_image_organization"
    else "fk_organization_directory_organization"

module _ {Tree : Type 0} (matches : Organization → Bool) where
  unfoldable pub delete_row : List Organization → Database Tree → Result (ℕ × Database Tree)
  delete_row [] db = ok (0, db)
  delete_row (r ∷ rs) db =
      let rest = delete_row rs db in
      if matches r
      then if is_referenced r.id db
        then err (violation Sentinel.foreign_key_violation (referring_key r.id db))
        else ok (1, with_rows db (remove_row r.id db.organizations))
      else rest
