-- ===== src/Blobfs.antt =====
-- blobfs, the library that keeps the file tree's rows, as a parameter: the rows as the service reads
-- them, the steps on its state `Tree` that the stores run, and its two-phase protocols.
pub mod Protocols
pub mod Sample
use go_web_service.Prelude.{ℕ, String, Bool, Option, Result}
use go_web_service.Database.Transactions.{Tx}

-- blobfs.DirectoryStatus and blobfs.Status: the values that the service names, and any other.
pub data DirectoryRowStatus : Type 0 where
  active deleting : DirectoryRowStatus
  unknown : String → DirectoryRowStatus

pub data FileRowStatus : Type 0 where
  pending available deleting : FileRowStatus
  unknown : String → FileRowStatus

-- blobfs.Directory
pub record DirectoryRow : Type 0 where
  pub id : String
  pub parent_id : Option String
  pub name : String
  pub status : DirectoryRowStatus
  pub version : ℕ

-- blobfs.File
pub record FileRow : Type 0 where
  pub id : String
  pub directory_id : String
  pub name : String
  pub key : String
  pub status : FileRowStatus
  pub size : Option ℕ
  pub etag : Option String
  pub content_type : String
  pub version : ℕ
  pub updated_at : ℕ

pub record FileTree (Tree : Type 0) : Type 0 where
  -- blobfs.RootID
  pub root_id : String
  -- Directories
  pub is_within : String → String → Tree → Result Bool
  pub find_directory : String → Tree → Result DirectoryRow
  pub path : String → Tree → Result String
  pub lock_tree : Tx Tree (Unit {0})
  pub create_directory : String → String → Tx Tree DirectoryRow
  -- The parent, the name, and the id that the insert takes, if one is given; whether it inserted.
  pub ensure_directory : String → String → Option String → Tx Tree (DirectoryRow × Bool)
  pub move_directory : String → String → String → ℕ → Tx Tree DirectoryRow
  pub delete_directory : String → ℕ → Tx Tree (Unit {0})
  -- The number of directories that the mark counted.
  pub mark_deleting : String → ℕ → Tx Tree ℕ
  -- Files
  pub find_file : String → Tree → Result FileRow
  pub create_file : String → String → String → Option String → Tx Tree FileRow
  pub move_file : String → String → String → ℕ → Tx Tree FileRow
  pub hold_file : String → Tx Tree (Unit {0})
  pub delete_file : String → Tx Tree FileRow
