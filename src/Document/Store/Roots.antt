-- ===== src/Document/Store/Roots.antt =====
-- ensureRoot and writable of domain/document/storage.go: the document root, created on an
-- organization's first write. `before` and `after` are what other transactions commit between this
-- call's read and its transaction, and between its transaction and its second read.
pub mod Laws
use go_web_service.Prelude.{
  String, Bool, true, false, ◌||◌, Option, none, some, if◌then◌else◌, ◌==◌, Error, Sentinel, wrap,
  Result, ok, err, is, wrapping,
}
use go_web_service.Database.{Database}
use go_web_service.Database.Events.{EventData}
use go_web_service.Database.Transactions.{Tx, Emitting, ◌>>=◌, ◌>>◌, pure, reading, on_db}
use go_web_service.Database.Engine.{Engine}
use go_web_service.Database.Engine.Commands.{command}
use go_web_service.Blobfs.{FileTree, DirectoryRow}
use go_web_service.Document.Entities.{root_alias}
use go_web_service.Document.Store.{on_tree, document_root, organization_exists, bind}
use go_web_service.Document.Store.Present.{raise_directory}

module _ {Tree : Type 0} (fs : FileTree Tree) where
  unfoldable pub raise_created : String → DirectoryRow × Bool → Emitting (Database Tree) (Unit {0})
  raise_created organization_id (dir, created) =
      if created
      then raise_directory EventData.directory_created organization_id dir.id dir
      else pure tt

  -- The transaction of ensureRoot.
  unfoldable pub root_body : String → Option String → Emitting (Database Tree) String
  unfolding raise_created
  root_body organization_id id = do
    reading (λ d. wrapping "organization" (organization_exists organization_id d.db))
    ensured ← on_db (on_tree (fs.ensure_directory fs.root_id organization_id id))
    on_db (bind fs organization_id (ensured.0).id)
    raise_created organization_id ensured
    pure (ensured.0).id

  module _ (en : Engine Tree) (before after : Database Tree → Database Tree) where
    -- A lost race reads the root that the winner bound.
    unfoldable pub settle_root :
        String → Result String × Database Tree → Result String × Database Tree
    settle_root organization_id (ok root, db) = (ok root, db)
    settle_root organization_id (err e, db) =
        if (is e Sentinel.name_taken || is e Sentinel.unique_violation)
        then (document_root organization_id (after db), after db)
        else (err e, db)

    unfoldable pub ensure_root :
        String → Option String → Database Tree → Result String × Database Tree
    unfolding settle_root
    ensure_root organization_id id db = elim (document_root organization_id db) [
      | ok root ↦ (ok root, db)
      | err e ↦
          if is e Sentinel.no_rows
          then settle_root organization_id (command en (root_body organization_id id) (before db))
          else (err e, db)
    ]

    unfoldable pub writable : String → String → Database Tree → Result String × Database Tree
    unfolding ensure_root
    writable organization_id id db =
        if id == root_alias then ensure_root organization_id none db else (ok id, db)
