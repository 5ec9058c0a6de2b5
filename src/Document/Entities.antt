-- ===== src/Document/Entities.antt =====
-- domain/document/entities.go: the directories and files as the API presents them, the commands,
-- the event data, and the seed's entries. Timestamps are left to the library's rows.
pub mod Seed
use go_web_service.Prelude.{
  ℕ, String, Bool, Option, none, some, if◌then◌else◌, ◌==◌, Error, Sentinel, Result, ok, err,
  sentinel, wrap, join, join_errors,
}

-- fmt.Errorf("%w: ...", ErrValidation)
abbrev pub invalid : String → Error
invalid reason = wrap reason (sentinel Sentinel.invalid_command)

abbrev pub err_root_move : Error
err_root_move = invalid "the document root cannot be moved"

abbrev pub root_alias : String
root_alias = "root"

pub data DirectoryStatus : Type 0 where
  active deleting : DirectoryStatus

pub data FileStatus : Type 0 where
  pending available deleting : FileStatus

pub record Directory : Type 0 where
  pub id : String
  pub parent_id : Option String
  pub name : String
  pub path : String
  pub status : DirectoryStatus
  pub version : ℕ

pub record File : Type 0 where
  pub id : String
  pub directory_id : String
  pub name : String
  pub status : FileStatus
  pub size : Option ℕ
  pub content_type : String
  pub version : ℕ

pub record CreateDirectory : Type 0 where
  pub parent_id : String
  pub name : String

pub record MoveDirectory : Type 0 where
  pub parent_id : String
  pub name : String

pub record MoveFile : Type 0 where
  pub directory_id : String
  pub name : String

pub record Identity : Type 0 where
  pub id : String
  pub version : ℕ

pub record DirectoryData : Type 0 where
  pub directory_id : String
  pub organization_id : String
  pub parent_id : Option String
  pub name : String
  pub version : ℕ

pub record DirectoryDeletedData : Type 0 where
  pub directory_id : String
  pub organization_id : String
  pub version : ℕ

pub record FileUploadedData : Type 0 where
  pub file_id : String
  pub organization_id : String
  pub directory_id : String
  pub name : String
  pub content_type : String
  pub size : Option ℕ
  pub etag : Option String
  pub version : ℕ

pub record FileDeletedData : Type 0 where
  pub file_id : String
  pub organization_id : String
  pub version : ℕ

-- `is_uuid` is uuid.Parse's acceptance, and `refuse_name` blobfs's ValidateName after its
-- NormalizeName.
module _ (is_uuid : String → Bool) (refuse_name : String → Option Error) where
  unfoldable pub valid_directory : String → String → Option Error
  valid_directory field id =
      if id == ""
      then some (invalid "root or a directory id is required")
      else if id == root_alias
      then none
      else if is_uuid id
      then none
      else some (invalid "must be root or a UUID")

  unfoldable pub valid_name : String → Option Error
  valid_name name = elim (refuse_name name) [
    | none ↦ none
    | some e ↦ some (join (sentinel Sentinel.invalid_command) e)
  ]

  unfoldable pub validate_create : CreateDirectory → Option Error
  unfolding valid_directory valid_name
  validate_create c = join_errors (valid_directory "parent_id" c.parent_id) (valid_name c.name)

  unfoldable pub validate_move_directory : MoveDirectory → Option Error
  unfolding valid_directory valid_name
  validate_move_directory m =
      join_errors (valid_directory "parent_id" m.parent_id) (valid_name m.name)

  unfoldable pub validate_move_file : MoveFile → Option Error
  unfolding valid_directory valid_name
  validate_move_file m =
      join_errors (valid_directory "directory_id" m.directory_id) (valid_name m.name)
