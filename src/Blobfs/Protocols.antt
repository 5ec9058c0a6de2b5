-- ===== src/Blobfs/Protocols.antt =====
-- blobfs's two-phase protocols over the object store, whose objects are not in the database: the
-- steps that the service hands them run in their transactions on the state `Db`.
use go_web_service.Prelude.{ℕ, String, Bool, Option, Result}
use go_web_service.Blobfs.{FileRow}
use go_web_service.Database.Transactions.{Tx}

pub record Protocols (Db : Type 0) : Type 0 where
  -- FS.WriteFile: the body and its size, the pending row's creation, and the hook of the completion's
  -- transaction.
  pub write_file :
      String → ℕ → Tx Db FileRow → (FileRow → Tx Db (Unit {0})) → Db → Result FileRow × Db
  -- FS.RemoveFile: the scope check of the transaction that begins the delete, the version, and the
  -- hook of that transaction.
  pub remove_file : Tx Db String → ℕ → (FileRow → Tx Db (Unit {0})) → Db → Result (Unit {0}) × Db
  -- FS.RemoveFileID, at a version or at any.
  pub remove_file_id : String → Option ℕ → Db → Result (Unit {0}) × Db
  -- FS.PurgeFile
  pub purge_file : FileRow → Db → Result (Unit {0}) × Db
  -- FS.EnsureFile over Files.Ensure: the directory, the id, the name, the content type and the
  -- content, with the hook of the completion; and whether this call stored the file.
  pub ensure_file :
      String
      → String
      → String
      → String
      → String
      → (FileRow → Tx Db (Unit {0}))
      → Db
      → Result (FileRow × Bool) × Db
