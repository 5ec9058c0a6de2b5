-- ===== src/Organization/Logos.antt =====
-- domain/organization/storage.go: the logos, with activeLogo, attach and detach of database.go and
-- raiseUploaded of messaging.go. The object's steps run through blobfs's protocols, the parameter
-- `pr`; a purge that fails is logged alone, so its result is dropped.
pub mod Commands
pub mod Seeds
use Prim.Native.String
use go_web_service.Prelude.{
  ℕ, String, Bool, true, false, ◌&&◌, ◌||◌, Option, none, some, List, [], ◌∷◌, ◌++◌, any, keep,
  find_first, if◌then◌else◌, ◌==◌, Error, Sentinel, sentinel, Result, ok, err, is, is_ok, join,
}
use go_web_service.Database.{Database, Image}
use go_web_service.Database.Events.{EventData}
use go_web_service.Database.Transactions.{
  Tx, Draft, Emitting, ◌>>=◌, ◌>>◌, pure, fail, reading, on_db, raise,
}
use go_web_service.Database.Engine.{Engine}
use go_web_service.Database.Engine.Commands.{command}
use go_web_service.Blobfs.{FileTree, FileRow, DirectoryRow}
use go_web_service.Blobfs.Protocols.{Protocols}
use go_web_service.Data.Storage.{Download, serve}
use go_web_service.Document.Store.{on_tree}
use go_web_service.Organization.Schema.{find_row, violation}
use go_web_service.Organization.Store.{exists}

abbrev pub images_directory : String
images_directory = "organization-images"

abbrev pub with_images : {Tree : Type 0} → Database Tree → List Image → Database Tree
with_images db images = record db { images = images }

abbrev pub is_active_of : String → Image → Bool
is_active_of organization_id i = i.organization_id == organization_id && i.active

-- abandoned: the removal's own error joined, but that of a file that is gone.
unfoldable pub abandoned : Error → Option Error → Error
abandoned e none = e
abandoned e (some removal) = if is removal Sentinel.not_found then e else join e removal

abbrev pub removal_error : Result (Unit {0}) → Option Error
removal_error (ok _) = none
removal_error (err e) = some e

-- detach_image.sql
unfoldable pub detach : {Tree : Type 0} → String → Tx (Database Tree) (Unit {0})
detach file_id db =
    ok (tt, with_images db (keep (λ i. if i.file_id == file_id then false else true) db.images))

-- raiseUploaded
unfoldable pub raise_uploaded : {Db : Type 0} → String → FileRow → Emitting Db (Unit {0})
raise_uploaded organization_id f = elim f.size [
  | none ↦ fail (Error.plain "the file completed without its size or entity tag")
  | some size ↦ elim f.etag [
    | none ↦ fail (Error.plain "the file completed without its size or entity tag")
    | some etag ↦ raise f.id (
        EventData.logo_uploaded (record {
          file_id = f.id;
          organization_id = organization_id;
          content_type = f.content_type;
          size = size;
          etag = etag;
          version = f.version;
        }))
  ]
]

module _ {Tree : Type 0} (fs : FileTree Tree) where
  -- active_logo.sql: the join of the active image with its file's row.
  unfoldable pub active_logo : String → Database Tree → Result FileRow
  active_logo organization_id db = elim (find_first (is_active_of organization_id) db.images) [
    | none ↦ err (sentinel Sentinel.no_rows)
    | some i ↦ elim (fs.find_file i.file_id db.tree) [
      | err e ↦ err (sentinel Sentinel.no_rows)
      | ok f ↦ ok f
    ]
  ]

  -- attach_image.sql, with the table's constraints
  unfoldable pub attach : String → String → Tx (Database Tree) (Unit {0})
  attach organization_id file_id db =
      if any (λ i. i.file_id == file_id) db.images
      then err (violation Sentinel.unique_violation "uq_organization_image_file")
      else if any (is_active_of organization_id) db.images
      then err (violation Sentinel.unique_violation "ux_organization_image_active")
      else elim (find_row organization_id db.organizations) [
        | none ↦ err (violation Sentinel.foreign_key_violation "fk_organization_image_organization")
        | some r ↦
            if is_ok (fs.find_file file_id db.tree)
            then ok (
              tt,
              with_images db (
                  db.images
                  ++ record { organization_id = organization_id; file_id = file_id; active = true }
                    ∷ []),
            )
            else err (violation Sentinel.foreign_key_violation "fk_organization_image_file")
      ]

  unfoldable pub release : String → Tx (Database Tree) FileRow
  release file_id = do detach file_id; on_tree (fs.delete_file file_id)

  -- The logo that the activation replaces, released, if there is one.
  unfoldable pub replace : Result FileRow → Tx (Database Tree) (Option FileRow)
  replace (ok current) = release current.id >>= λ f. pure (some f)
  replace (err e) = if is e Sentinel.no_rows then pure none else fail e

  -- The transaction of putLogo that activates the completed file.
  unfoldable pub activate_body : String → FileRow → Emitting (Database Tree) (Option FileRow)
  activate_body organization_id f = do
    on_db (on_tree (fs.hold_file f.id))
    replaced ← on_db (λ db. replace (active_logo organization_id db) db)
    on_db (attach organization_id f.id)
    raise_uploaded organization_id f
    pure replaced

  unfoldable pub logo : String → Database Tree → Result Download
  logo organization_id db = elim (active_logo organization_id db) [
    | err e ↦ err e
    | ok f ↦ elim (serve f) [ err e ↦ err (Error.wrap "logo" e) | ok dl ↦ ok dl ]
  ]

  -- The transaction of deleteLogo.
  unfoldable pub delete_logo_body : String → Emitting (Database Tree) FileRow
  delete_logo_body organization_id = do
    current ← reading (λ d. active_logo organization_id d.db)
    deleting ← on_db (release current.id)
    raise deleting.id (
        EventData.logo_deleted (record {
          file_id = deleting.id;
          organization_id = organization_id;
          version = deleting.version;
        }))
    pure deleting

  -- The pending row of a logo, created once the organization is read; `ext` is its file's extension.
  unfoldable pub pending_logo :
      String → String → String → String → String → Tx (Database Tree) FileRow
  pending_logo organization_id directory_id id ext content_type = do
    exists organization_id
    on_tree (fs.create_file directory_id (Prim.Native.String.◌++◌ id ext) content_type (some id))

  module _ (en : Engine Tree) (pr : Protocols (Database Tree)) where
    -- purge
    unfoldable pub purge : FileRow → Database Tree → Database Tree
    purge f db = (pr.purge_file f db).1

    -- What follows the activation: the new file's removal, or the replaced one's purge.
    unfoldable pub settle_logo :
        FileRow → Result (Option FileRow) × Database Tree → Result String × Database Tree
    settle_logo f (err e, db) =
        let (removed, db') = pr.remove_file_id f.id none db in
        (err (abandoned e (removal_error removed)), db')
    settle_logo f (ok none, db) = (ok f.id, db)
    settle_logo f (ok (some replaced), db) = (ok f.id, purge replaced db)

    -- `between` is what other transactions commit between the write and the activation.
    module _ (between : Database Tree → Database Tree) where
      unfoldable pub activate :
          String → Result FileRow × Database Tree → Result String × Database Tree
      activate organization_id (err e, db) = (err e, db)
      activate organization_id (ok f, db) =
          settle_logo f (command en (activate_body organization_id f) (between db))

      write_logo :
          String
          → String
          → String
          → String
          → ℕ
          → String
          → Result ((DirectoryRow × Bool) × Tree)
          → Database Tree
          → Result String × Database Tree
      write_logo organization_id id ext body size content_type (err e) db = (err e, db)
      write_logo organization_id id ext body size content_type (ok ((dir, _), t)) db =
          activate organization_id (
            pr.write_file body size (pending_logo organization_id dir.id id ext content_type)
              (λ f. pure tt) (record db { tree = t }))

      -- putLogo; `id` is the id that blobfs.NewID mints
      unfoldable pub put_logo :
          String
          → String
          → String
          → String
          → ℕ
          → String
          → Database Tree
          → Result String × Database Tree
      unfolding write_logo
      put_logo organization_id id ext body size content_type db =
          write_logo organization_id id ext body size content_type
            (fs.ensure_directory fs.root_id images_directory none db.tree) db

    purged : Result FileRow × Database Tree → Result (Unit {0}) × Database Tree
    purged (err e, db) = (err e, db)
    purged (ok f, db) = (ok tt, purge f db)

    unfoldable pub delete_logo : String → Database Tree → Result (Unit {0}) × Database Tree
    unfolding purged
    delete_logo organization_id db = purged (command en (delete_logo_body organization_id) db)
