-- ===== src/Document/Store/Files.antt =====
-- The file operations of domain/document/storage.go, with emitUploaded, emitDeleted and emit of
-- messaging.go. An upload and a delete run through blobfs's protocols, which are the parameter `pr`.
pub mod Commands
use go_web_service.Prelude.{
  ℕ, String, Option, none, some, Error, Sentinel, Result, ok, err, wrapping,
}
use go_web_service.Database.{Database}
use go_web_service.Database.Events.{EventData}
use go_web_service.Database.Transactions.{
  Tx, Emitting, ◌>>=◌, ◌>>◌, pure, fail, reading, on_db, raise,
}
use go_web_service.Database.Engine.{Engine}
use go_web_service.Database.Engine.Commands.{command}
use go_web_service.Blobfs.{FileTree, FileRow}
use go_web_service.Blobfs.Protocols.{Protocols}
use go_web_service.Data.Storage.{Object, serve}
use go_web_service.Document.Entities.{MoveFile, Identity, File}
use go_web_service.Document.Store.{on_tree, within, scope, file_scope}
use go_web_service.Document.Store.Present.{file_of, file_data}
use go_web_service.Document.Store.Roots.{writable}

-- web.Upload
pub record Upload : Type 0 where
  pub body : String
  pub size : ℕ
  pub content_type : String

-- Content: `key` is what the download's Open streams.
pub record Content : Type 0 where
  pub name : String
  pub object : Object
  pub key : String

-- `Identity{ID: file.ID, Version: file.Version}, err`
abbrev pub file_identity : Result FileRow → Result Identity
file_identity (ok f) = ok (record { id = f.id; version = f.version })
file_identity (err e) = err e

module _ {Tree : Type 0} (en : Engine Tree) where
  -- emit: the raised events, written into the hook's own transaction.
  unfoldable pub emit_in : Emitting (Database Tree) (Unit {0}) → Tx (Database Tree) (Unit {0})
  emit_in raised = en.emit (Unit {0}) raised

  unfoldable pub emit_uploaded : String → FileRow → Tx (Database Tree) (Unit {0})
  unfolding emit_in
  emit_uploaded organization_id f = elim f.size [
    | none ↦ fail (Error.plain "the file completed without its size or entity tag")
    | some size ↦ elim f.etag [
      | none ↦ fail (Error.plain "the file completed without its size or entity tag")
      | some etag ↦ emit_in (raise f.id (EventData.file_uploaded (file_data organization_id f)))
    ]
  ]

  unfoldable pub emit_deleted : String → FileRow → Tx (Database Tree) (Unit {0})
  unfolding emit_in
  emit_deleted organization_id f = emit_in (
      raise f.id (
        EventData.file_deleted
          (record { file_id = f.id; organization_id = organization_id; version = f.version })))

module _ {Tree : Type 0} (fs : FileTree Tree) where
  -- The pending row of an upload, created in its directory's scope.
  unfoldable pub pending_file : String → String → String → String → Tx (Database Tree) FileRow
  pending_file organization_id directory_id name content_type = do
    scoped ← reading (λ db. scope fs organization_id directory_id db)
    on_tree (fs.create_file scoped.1 name content_type none)

  unfoldable pub file : String → String → Database Tree → Result File
  file organization_id id db = elim (file_scope fs organization_id id db) [
    | err e ↦ err e
    | ok (root, f) ↦ file_of f
  ]

  unfoldable pub content : String → String → Database Tree → Result Content
  content organization_id id db = elim (file_scope fs organization_id id db) [
    | err e ↦ err e
    | ok (root, f) ↦ elim (wrapping "content" (serve f)) [
      | err e ↦ err e
      | ok dl ↦ ok (record { name = f.name; object = dl.object; key = dl.key })
    ]
  ]

  -- The scope check of a delete's first transaction: the file's id.
  unfoldable pub scoped_file : String → String → Tx (Database Tree) String
  scoped_file organization_id id = do
    found ← reading (λ db. file_scope fs organization_id id db)
    pure found.1.id

  unfoldable pub move_file_body : String → String → ℕ → MoveFile → Emitting (Database Tree) FileRow
  move_file_body organization_id id version m = do
    found ← reading (λ d. file_scope fs organization_id id d.db)
    dir ← reading (λ d. within fs found.0 m.directory_id d.db)
    f ← on_db (on_tree (fs.move_file id dir m.name version))
    raise f.id (EventData.file_moved (file_data organization_id f))
    pure f

  module _ (en : Engine Tree) where
    unfoldable pub move_file :
        String → String → ℕ → MoveFile → Database Tree → Result Identity × Database Tree
    move_file organization_id id version m db =
        let (r, db') = command en (move_file_body organization_id id version m) db in
        (file_identity r, db')

    module _ (pr : Protocols (Database Tree)) where
      unfoldable pub delete_file :
          String → String → ℕ → Database Tree → Result (Unit {0}) × Database Tree
      delete_file organization_id id version db =
          pr.remove_file (scoped_file organization_id id) version (emit_deleted en organization_id)
            db

      uploaded_to :
          String → String → Upload → Result String × Database Tree → Result Identity × Database Tree
      uploaded_to organization_id name u (err e, db) = (err e, db)
      uploaded_to organization_id name u (ok directory_id, db) =
          let (r, db') =
            pr.write_file u.body u.size
              (pending_file organization_id directory_id name u.content_type)
              (emit_uploaded en organization_id) db in
          (file_identity r, db')

      -- `before` and `after` are what other transactions commit while the root is ensured.
      unfoldable pub upload_file :
          (before after : Database Tree → Database Tree)
          → String
          → String
          → String
          → Upload
          → Database Tree
          → Result Identity × Database Tree
      unfolding uploaded_to
      upload_file before after organization_id directory_id name u db =
          uploaded_to organization_id name u
            (writable fs en before after organization_id directory_id db)
