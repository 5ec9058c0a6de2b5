-- ===== src/Document/Store/Directories.antt =====
-- The directory operations of domain/document/storage.go, with raiseMarked of messaging.go. Where an
-- operation ensures the root first, `before`, `after` and `between` are what other transactions
-- commit meanwhile.
pub mod Scope
pub mod Commands
pub mod Invariant
pub mod Marks
use Prim.Native.Char.{code}
use Prim.Native.String
use go_web_service.Prelude.{
  ℕ, zero, suc, String, Bool, true, false, ◌||◌, ◌&&◌, Option, none, some, List, if◌then◌else◌,
  ◌==◌, ◌=ℕ=◌, Error, Sentinel, sentinel, wrap, Result, ok, err, is, wrapping,
}
use go_web_service.Database.{Database}
use go_web_service.Database.Events.{EventData}
use go_web_service.Database.Transactions.{
  Tx, Emitting, Draft, ◌>>=◌, ◌>>◌, pure, fail, reading, on_db, raise,
}
use go_web_service.Database.Engine.{Engine}
use go_web_service.Database.Engine.Commands.{command}
use go_web_service.Blobfs.{FileTree, DirectoryRow, DirectoryRowStatus}
use go_web_service.Document.Entities.{
  root_alias, err_root_move, CreateDirectory, MoveDirectory, Identity, Directory,
  DirectoryDeletedData,
}
use go_web_service.Document.Store.{
  on_tree, document_root, organization_exists, within, scope, delete_directory_row,
}
use go_web_service.Document.Store.Present.{directory_of, raise_directory}
use go_web_service.Document.Store.Roots.{writable}

-- `Identity{ID: dir.ID, Version: dir.Version}, err`
abbrev pub identity_of : Result DirectoryRow → Result Identity
identity_of (ok dir) = ok (record { id = dir.id; version = dir.version })
identity_of (err e) = err e

-- strings.TrimPrefix(path, "/")
unfoldable pub strip_slash : String → String
strip_slash String.[] = String.[]
strip_slash (String.◌∷◌ c s) = if code c =ℕ= b'/' then s else String.◌∷◌ c s

-- What strings.Cut(path, "/") leaves after the first slash.
after_slash : String → String
after_slash String.[] = String.[]
after_slash (String.◌∷◌ c s) = let rest = after_slash s in if code c =ℕ= b'/' then s else rest

-- The path from the document root, of blobfs's path from its own.
unfoldable pub below_root : String → String
unfolding strip_slash after_slash
below_root path = String.◌++◌ "/" (after_slash (strip_slash path))

-- Whether the mark is the directory's first, by its status before the mark and the mark's count.
abbrev pub is_first : DirectoryRowStatus → ℕ → Bool
is_first DirectoryRowStatus.active (suc n) = true
is_first DirectoryRowStatus.active zero = false
is_first DirectoryRowStatus.deleting n = false
is_first (DirectoryRowStatus.unknown s) n = false

module _ {Tree : Type 0} (fs : FileTree Tree) where
  unfoldable pub create_body : String → String → String → Emitting (Database Tree) DirectoryRow
  create_body organization_id parent_id name = do
    scoped ← reading (λ d. scope fs organization_id parent_id d.db)
    dir ← on_db (on_tree (fs.create_directory scoped.1 name))
    raise_directory EventData.directory_created organization_id scoped.0 dir
    pure dir

  -- directory: the scope check, the directory and its path on one state
  unfoldable pub directory : String → String → Database Tree → Result Directory
  directory organization_id id db = elim (scope fs organization_id id db) [
    | err e ↦ err e
    | ok (root, dir) ↦ elim (fs.find_directory dir db.tree) [
      | err e ↦ err e
      | ok d ↦ elim (fs.path dir db.tree) [
        | err e ↦ err e
        | ok path ↦ elim (directory_of d root) [
          | err e ↦ err e
          | ok out ↦ ok (record out { path = below_root path })
        ]
      ]
    ]
  ]

  unfoldable pub delete_body : String → String → ℕ → Emitting (Database Tree) (Unit {0})
  delete_body organization_id id version = do
    scoped ← reading (λ d. scope fs organization_id id d.db)
    on_db (delete_directory_row fs scoped.1 version)
    raise scoped.1 (
        EventData.directory_deleted (record {
          directory_id = scoped.1;
          organization_id = organization_id;
          version = version;
        }))

  -- raiseMarked
  unfoldable pub raise_marked : String → String → Emitting (Database Tree) (Unit {0})
  raise_marked organization_id id = do
    d ← reading (λ s. wrapping "the directory after its mark" (fs.find_directory id (s.db).tree))
    raise id (
        EventData.directory_deleted
          (record { directory_id = id; organization_id = organization_id; version = d.version }))

  unfoldable pub mark_body : String → String → ℕ → Emitting (Database Tree) String
  mark_body organization_id id version = do
    scoped ← reading (λ d. scope fs organization_id id d.db)
    on_db (on_tree fs.lock_tree)
    anchor ← reading (λ d. fs.find_directory scoped.1 (d.db).tree)
    marked ← on_db (on_tree (fs.mark_deleting scoped.1 version))
    if is_first anchor.status marked then raise_marked organization_id scoped.1 else pure tt
    pure scoped.1

  unfoldable pub move_body :
      String → String → ℕ → MoveDirectory → Emitting (Database Tree) DirectoryRow
  move_body organization_id id version m = do
    scoped ← reading (λ d. scope fs organization_id id d.db)
    if scoped.1 == scoped.0 then fail err_root_move else pure tt
    parent ← reading (λ d. within fs scoped.0 m.parent_id d.db)
    dir ← on_db (on_tree (fs.move_directory scoped.1 parent m.name version))
    raise_directory EventData.directory_moved organization_id scoped.0 dir
    pure dir

  module _ (en : Engine Tree) where
    unfoldable pub delete_directory :
        String → String → ℕ → Database Tree → Result (Unit {0}) × Database Tree
    delete_directory organization_id id version db =
        command en (delete_body organization_id id version) db

    unfoldable pub mark_branch : String → String → ℕ → Database Tree → Result String × Database Tree
    mark_branch organization_id id version db = command en (mark_body organization_id id version) db

    unfoldable pub move_directory :
        String → String → ℕ → MoveDirectory → Database Tree → Result Identity × Database Tree
    move_directory organization_id id version m db =
        let (r, db') = command en (move_body organization_id id version m) db in
        (identity_of r, db')

    module _ (before after between : Database Tree → Database Tree) where
      created_under :
          String → CreateDirectory → Result String × Database Tree → Result Identity × Database Tree
      created_under organization_id c (err e, db) = (err e, db)
      created_under organization_id c (ok parent, db) =
          let (r, db') = command en (create_body organization_id parent c.name) (between db) in
          (identity_of r, db')

      unfoldable pub create_directory :
          String → CreateDirectory → Database Tree → Result Identity × Database Tree
      unfolding created_under
      create_directory organization_id c db =
          created_under organization_id c
            (writable fs en before after organization_id c.parent_id db)
