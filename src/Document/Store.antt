-- ===== src/Document/Store.antt =====
-- domain/document/storage.go and database.go: the document store. This file has the reads that check
-- an id's scope, the owner rows' statements, and what presents blobfs's rows; the operations are in
-- the children.
pub mod Present
pub mod Directories
pub mod Files
pub mod Roots
pub mod Listings
use go_web_service.Prelude.{
  ℕ, String, Bool, true, false, ◌||◌, Option, none, some, List, [], ◌∷◌, ◌++◌, any, find_first,
  keep, if◌then◌else◌, ◌==◌, Error, Sentinel, sentinel, wrap, Result, ok, err, is, is_ok, wrapping,
}
use go_web_service.Database.{Database, OwnerRow}
use go_web_service.Database.Transactions.{Tx}
use go_web_service.Organization.Schema.{find_row, violation}
use go_web_service.Blobfs.{FileTree, FileRow}
use go_web_service.Document.Entities.{root_alias}

-- A step on blobfs's rows alone.
abbrev pub on_tree : {Tree A : Type 0} → Tx Tree A → Tx (Database Tree) A
on_tree m db = elim (m db.tree) [ err e ↦ err e | ok (a, t) ↦ ok (a, record db { tree = t }) ]

-- document_root.sql
unfoldable pub document_root : {Tree : Type 0} → String → Database Tree → Result String
document_root organization_id db =
    elim (find_first (λ o. o.organization_id == organization_id) db.owners) [
      | none ↦ err (sentinel Sentinel.no_rows)
      | some o ↦ ok o.directory_id
    ]

-- organization_exists.sql
unfoldable pub organization_exists : {Tree : Type 0} → String → Database Tree → Result (Unit {0})
organization_exists organization_id db = elim (find_row organization_id db.organizations) [
  | none ↦ err (sentinel Sentinel.no_rows)
  | some r ↦ ok tt
]

abbrev pub with_owners : {Tree : Type 0} → Database Tree → List OwnerRow → Database Tree
with_owners db owners = record db { owners = owners }

module _ {Tree : Type 0} (fs : FileTree Tree) where
  -- bind_root.sql, with the table's keys
  unfoldable pub bind : String → String → Tx (Database Tree) (Unit {0})
  bind organization_id directory_id db =
      if any (λ o. o.directory_id == directory_id) db.owners
      then err (violation Sentinel.unique_violation "organization_directory_pkey")
      else if any (λ o. o.organization_id == organization_id) db.owners
      then err (violation Sentinel.unique_violation "uq_organization_directory_organization")
      else if is_ok (fs.find_directory directory_id db.tree)
      then if is_ok (organization_exists organization_id db)
        then ok (
          tt,
          with_owners db (
              db.owners
              ++ record { directory_id = directory_id; organization_id = organization_id } ∷ []),
        )
        else err (violation Sentinel.foreign_key_violation "fk_organization_directory_organization")
      else err (violation Sentinel.foreign_key_violation "fk_organization_directory_directory")

  -- A directory's removal, with the cascade of fk_organization_directory_directory.
  unfoldable pub delete_directory_row : String → ℕ → Tx (Database Tree) (Unit {0})
  delete_directory_row id version db = elim (fs.delete_directory id version db.tree) [
    | err e ↦ err e
    | ok (_, t) ↦ ok (
      tt,
      record db {
        tree = t;
        owners = keep (λ o. if o.directory_id == id then false else true) db.owners;
      },
    )
  ]

  -- within
  unfoldable pub within : String → String → Database Tree → Result String
  within root id db =
      if id == root_alias || id == root then ok root else elim (fs.is_within id root db.tree) [
        | err e ↦ err e
        | ok false ↦ err (wrap "directory" (sentinel Sentinel.not_found))
        | ok true ↦ ok id
      ]

  -- scope: the root and the directory
  unfoldable pub scope : String → String → Database Tree → Result (String × String)
  scope organization_id id db = elim (document_root organization_id db) [
    | err e ↦ err (wrap "document root" e)
    | ok root ↦ elim (within root id db) [ err e ↦ err e | ok dir ↦ ok (root, dir) ]
  ]

  -- fileScope: the root and the file
  unfoldable pub file_scope : String → String → Database Tree → Result (String × FileRow)
  file_scope organization_id id db = elim (document_root organization_id db) [
    | err e ↦ err (wrap "document root" e)
    | ok root ↦ elim (fs.find_file id db.tree) [
      | err e ↦ err e
      | ok file ↦ elim (within root file.directory_id db) [
        | err e ↦ err (wrap "file" (sentinel Sentinel.not_found))
        | ok dir ↦ ok (root, file)
      ]
    ]
  ]
