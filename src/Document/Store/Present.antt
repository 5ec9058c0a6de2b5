-- ===== src/Document/Store/Present.antt =====
-- What presents blobfs's rows in the API's terms: directoryOf, fileOf, present and the statuses of
-- domain/document/storage.go, and the event data of messaging.go.
use go_web_service.Prelude.{
  String, Option, none, List, [], ◌∷◌, if◌then◌else◌, ◌==◌, Sentinel, sentinel, wrap, Result, ok,
  err,
}
use go_web_service.Blobfs.{DirectoryRow, FileRow, DirectoryRowStatus, FileRowStatus}
use go_web_service.Database.Events.{EventData}
use go_web_service.Database.Transactions.{Emitting, raise}
use go_web_service.Document.Entities.{
  Directory, File, DirectoryStatus, FileStatus, DirectoryData, FileUploadedData,
}

unfoldable pub directory_status : DirectoryRowStatus → Result DirectoryStatus
directory_status DirectoryRowStatus.active = ok DirectoryStatus.active
directory_status DirectoryRowStatus.deleting = ok DirectoryStatus.deleting
directory_status (DirectoryRowStatus.unknown s) =
    err (wrap "directory status" (sentinel Sentinel.unknown_status))

unfoldable pub file_status : FileRowStatus → Result FileStatus
file_status FileRowStatus.pending = ok FileStatus.pending
file_status FileRowStatus.available = ok FileStatus.available
file_status FileRowStatus.deleting = ok FileStatus.deleting
file_status (FileRowStatus.unknown s) = err (wrap "file status" (sentinel Sentinel.unknown_status))

-- The document root has no parent that the API shows and is named "/".
abbrev pub shown_parent : DirectoryRow → String → Option String
shown_parent d root = if d.id == root then none else d.parent_id

abbrev pub shown_name : DirectoryRow → String → String
shown_name d root = if d.id == root then "/" else d.name

unfoldable pub directory_of : DirectoryRow → String → Result Directory
unfolding directory_status
directory_of d root = elim (directory_status d.status) [
  | err e ↦ err (wrap "directory" e)
  | ok status ↦ ok (record {
    id = d.id;
    parent_id = shown_parent d root;
    name = shown_name d root;
    path = "";
    status = status;
    version = d.version;
  })
]

unfoldable pub file_of : FileRow → Result File
unfolding file_status
file_of f = elim (file_status f.status) [
  | err e ↦ err (wrap "file" e)
  | ok status ↦ ok (record {
    id = f.id;
    directory_id = f.directory_id;
    name = f.name;
    status = status;
    size = f.size;
    content_type = f.content_type;
    version = f.version;
  })
]

-- present: each row presented, or the first refusal.
unfoldable pub present : {T U : Type 0} → (T → Result U) → List T → Result (List U)
present of [] = ok []
present of (item ∷ items) =
    let rest = present of items in
    elim (of item) [ err e ↦ err e | ok u ↦ elim rest [ err e ↦ err e | ok us ↦ ok (u ∷ us) ] ]

abbrev pub directory_data : String → String → DirectoryRow → DirectoryData
directory_data organization_id root d = record {
  directory_id = d.id;
  organization_id = organization_id;
  parent_id = shown_parent d root;
  name = shown_name d root;
  version = d.version;
}

-- raiseDirectory
abbrev pub raise_directory :
    {Db : Type 0}
    → (DirectoryData → EventData)
    → String
    → String
    → DirectoryRow
    → Emitting Db (Unit {0})
raise_directory kind organization_id root d =
    raise d.id (kind (directory_data organization_id root d))

-- fileData
abbrev pub file_data : String → FileRow → FileUploadedData
file_data organization_id f = record {
  file_id = f.id;
  organization_id = organization_id;
  directory_id = f.directory_id;
  name = f.name;
  content_type = f.content_type;
  size = f.size;
  etag = f.etag;
  version = f.version;
}
