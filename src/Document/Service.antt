-- ===== src/Document/Service.antt =====
-- domain/document/service.go: the commands as a handler calls them, each validated before any I/O,
-- the domain's own problem matcher, and the delete route's dispatch of handler.go. The sweeper's
-- nudge is the count in the state beside the database.
pub mod Deletes
use go_web_service.Prelude.{
  ℕ, suc, String, Bool, true, false, Option, none, some, if◌then◌else◌, ◌==◌, Error, Sentinel,
  Result, ok, err, is,
}
use go_web_service.Database.{Database}
use go_web_service.Database.Engine.{Engine}
use go_web_service.Blobfs.{FileTree}
use go_web_service.Blobfs.Protocols.{Protocols}
use go_web_service.Data.Status.{Problem, bare}
use go_web_service.Document.Entities.{
  CreateDirectory, MoveDirectory, MoveFile, Identity, root_alias, err_root_move, valid_name,
  validate_create, validate_move_directory, validate_move_file, invalid,
}
use go_web_service.Document.Store.Directories
use go_web_service.Document.Store.Files
use go_web_service.Document.Store.Files.{Upload}

-- status of handler.go
unfoldable pub matched_status : Error → Option Problem
matched_status e = if is e Sentinel.invalid_command then some (bare 400) else none

abbrev pub accepted : {S A : Type 0} → Option Error → (S → Result A × S) → S → Result A × S
accepted none command db = command db
accepted (some e) command db = (err e, db)

-- DeleteBranch's answer: the sweeper is nudged only after a mark that stands.
abbrev pub nudged :
    {Tree : Type 0} → ℕ → Result String × Database Tree → Result String × Database Tree × ℕ
nudged n (err e, db) = (err e, db, n)
nudged n (ok id, db) = (ok id, db, suc n)

-- What the delete route answers: 204, or 202 with the Location's id.
pub data Deleted : Type 0 where
  no_content : Deleted
  accepted_at : String → Deleted

abbrev pub removed :
    {Tree : Type 0} → ℕ → Result (Unit {0}) × Database Tree → Result Deleted × Database Tree × ℕ
removed n (err e, db) = (err e, db, n)
removed n (ok _, db) = (ok no_content, db, n)

abbrev pub located :
    {Tree : Type 0} → Result String × Database Tree × ℕ → Result Deleted × Database Tree × ℕ
located (err e, db, n) = (err e, db, n)
located (ok id, db, n) = (ok (accepted_at id), db, n)

module _ {Tree : Type 0} (fs : FileTree Tree) (en : Engine Tree) where
  unfoldable pub delete_branch :
      String → String → ℕ → Database Tree → ℕ → Result String × Database Tree × ℕ
  delete_branch organization_id id version db n =
      nudged n (Directories.mark_branch fs en organization_id id version db)

  -- The query's `recursive`, as strconv.ParseBool reads it: `none` where the parameter is absent.
  module _ (parse_bool : String → Option Bool) where
    unfoldable pub recursive_of : String → Result Bool
    recursive_of raw = if raw == "" then ok false else elim (parse_bool raw) [
      | none ↦ err (invalid "recursive must be true or false")
      | some recursive ↦ ok recursive
    ]

    -- deleteDirectory of handler.go, once the path and the version are read
    unfoldable pub delete_route :
        String → String → ℕ → String → Database Tree → ℕ → Result Deleted × Database Tree × ℕ
    delete_route organization_id id version raw db n = elim (recursive_of raw) [
      | err e ↦ (err e, db, n)
      | ok false ↦ removed n (Directories.delete_directory fs en organization_id id version db)
      | ok true ↦ located (delete_branch organization_id id version db n)
    ]

  module _ (is_uuid : String → Bool) (refuse_name : String → Option Error) where
    unfoldable pub create_document_directory :
        (before after between : Database Tree → Database Tree)
        → String
        → CreateDirectory
        → Database Tree
        → Result Identity × Database Tree
    create_document_directory before after between organization_id c =
        accepted (validate_create is_uuid refuse_name c)
          (Directories.create_directory fs en before after between organization_id c)

    unfoldable pub move_document_directory :
        String → String → ℕ → MoveDirectory → Database Tree → Result Identity × Database Tree
    move_document_directory organization_id id version m db =
        if id == root_alias
        then (err err_root_move, db)
        else accepted (validate_move_directory is_uuid refuse_name m)
            (Directories.move_directory fs en organization_id id version m) db

    unfoldable pub move_document_file :
        String → String → ℕ → MoveFile → Database Tree → Result Identity × Database Tree
    move_document_file organization_id id version m =
        accepted (validate_move_file is_uuid refuse_name m)
          (Files.move_file fs en organization_id id version m)

    unfoldable pub upload_document :
        (before after : Database Tree → Database Tree)
        → Protocols (Database Tree)
        → String
        → String
        → String
        → Upload
        → Database Tree
        → Result Identity × Database Tree
    upload_document before after pr organization_id directory_id name u =
        accepted (valid_name is_uuid refuse_name name)
          (Files.upload_file fs en pr before after organization_id directory_id name u)
