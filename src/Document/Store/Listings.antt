-- ===== src/Document/Store/Listings.antt =====
-- The listings of domain/document/storage.go: one page of a directory's directories or files, over
-- blobfs's listings, which are parameters, as are the library's operators and its total of a read
-- that did not count.
pub mod Commands
use go_web_service.Prelude.{
  String, Bool, true, false, ◌&&◌, List, if◌then◌else◌, ◌==◌, Error, Sentinel, sentinel, wrap,
  Result, ok, err, is, ℤ,
}
use go_web_service.Database.{Database}
use go_web_service.Blobfs.{FileTree, DirectoryRow, FileRow}
use go_web_service.Data.Directives.{
  RequestQuery, Operators, Listing, Collection, Paging, read_listing, paging,
}
use go_web_service.Document.Entities.{root_alias, Directory, File}
use go_web_service.Document.Store.{organization_exists, scope}
use go_web_service.Document.Store.Present.{directory_of, file_of, present}

-- The answer of listing, of what the read returned.
unfoldable pub listed : {T : Type 0} → ℤ → Result (Collection T) → Result (List T × Paging)
listed no_total (ok c) = ok (c.items, paging no_total c)
listed no_total (err e) =
    if is e Sentinel.deleting
    then err (wrap "directory is being deleted" (sentinel Sentinel.not_found))
    else err e

unfoldable pub listing :
    {T Tree : Type 0}
    → Operators
    → ℤ
    → Listing T (Database Tree)
    → String
    → RequestQuery
    → Database Tree
    → Result (List T × Paging)
unfolding listed
listing ops no_total l id q db = listed no_total (read_listing ops l id q db)

-- A page with its rows presented.
unfoldable pub presented :
    {T U : Type 0} → (T → Result U) → Result (List T × Paging) → Result (List U × Paging)
presented of (err e) = err e
presented of (ok (items, p)) = elim (present of items) [ err e ↦ err e | ok out ↦ ok (out, p) ]

module _ {Tree : Type 0} (fs : FileTree Tree) where
  -- listScope; `fresh` is the id that blobfs.NewID mints for the read
  unfoldable pub list_scope : String → String → String → Database Tree → Result (String × String)
  list_scope fresh organization_id id db = elim (scope fs organization_id id db) [
    | ok scoped ↦ ok scoped
    | err e ↦
        if (id == root_alias && is e Sentinel.no_rows)
        then elim (organization_exists organization_id db) [
          | err e' ↦ err (wrap "organization" e')
          | ok _ ↦ ok (fresh, fresh)
        ]
        else err e
  ]

  module _ (ops : Operators) (no_total : ℤ) (fresh : String) where
    -- listDirectories
    unfoldable pub list_directories :
        Listing DirectoryRow (Database Tree)
        → String
        → String
        → RequestQuery
        → Database Tree
        → Result (List Directory × Paging)
    unfolding presented listing
    list_directories l organization_id id q db = elim (list_scope fresh organization_id id db) [
      | err e ↦ err e
      | ok (root, dir) ↦ presented (λ d. directory_of d root) (listing ops no_total l dir q db)
    ]

    -- listFiles
    unfoldable pub list_files :
        Listing FileRow (Database Tree)
        → String
        → String
        → RequestQuery
        → Database Tree
        → Result (List File × Paging)
    unfolding presented listing
    list_files l organization_id id q db = elim (list_scope fresh organization_id id db) [
      | err e ↦ err e
      | ok (root, dir) ↦ presented file_of (listing ops no_total l dir q db)
    ]
