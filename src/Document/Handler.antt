-- ===== src/Document/Handler.antt =====
-- domain/document/handler.go: the routes' reads of a request, in order, and the commands behind them.
-- The web SDK's reads of the path, the If-Match header, the query and the body are what they returned;
-- the delete route's dispatch is in Service.
pub mod Requests
use go_web_service.Prelude.{ℕ, String, Bool, Option, if◌then◌else◌, ◌==◌, Error, Result, ok, err}
use go_web_service.Sdk.{Guarded}
use go_web_service.Database.{Database}
use go_web_service.Database.Engine.{Engine}
use go_web_service.Blobfs.{FileTree}
use go_web_service.Blobfs.Protocols.{Protocols}
use go_web_service.Document.Entities.{
  Directory, File, CreateDirectory, MoveDirectory, MoveFile, Identity, root_alias, invalid,
}
use go_web_service.Document.Store.Directories
use go_web_service.Document.Store.Files
use go_web_service.Document.Store.Files.{Content, Upload}
use go_web_service.Document.Service.{
  create_document_directory, move_document_directory, move_document_file, upload_document,
}

-- The path of a request: the SDK's reads of its ids, and the text of the second.
pub record PathIds : Type 0 where
  pub organization : Result String
  pub text : String
  pub uuid : Result String

-- directoryPath
unfoldable pub directory_path : PathIds → Result (String × String)
directory_path p = elim p.organization [
  | err e ↦ err e
  | ok org ↦
      if p.text == root_alias
      then ok (org, root_alias)
      else elim p.uuid [ err e ↦ err e | ok id ↦ ok (org, id) ]
]

-- filePath
unfoldable pub file_path : PathIds → Result (String × String)
file_path p = elim p.organization [
  | err e ↦ err e
  | ok org ↦ elim p.uuid [ err e ↦ err e | ok id ↦ ok (org, id) ]
]

-- The reads of moveDirectory.
unfoldable pub move_inputs :
    PathIds → Result ℕ → Result MoveDirectory → Result (String × Guarded MoveDirectory)
move_inputs p version body = elim (directory_path p) [
  | err e ↦ err e
  | ok (org, id) ↦ elim version [
    | err e ↦ err e
    | ok v ↦ elim body [
      | err e ↦ err e
      | ok m ↦ ok (org, record { id = id; version = v; body = m })
    ]
  ]
]

-- The reads of uploadFile, as the organization, the directory, the name and the upload.
unfoldable pub upload_inputs :
    PathIds
    → String
    → Result Upload
    → Result (Unit {0})
    → Result ((String × String) × (String × Upload))
upload_inputs p name upload widen = elim (directory_path p) [
  | err e ↦ err e
  | ok scoped ↦
      if name == "" then err (invalid "the name query parameter is required") else elim upload [
        | err e ↦ err e
        | ok u ↦ elim widen [ err e ↦ err e | ok _ ↦ ok (scoped, (name, u)) ]
      ]
]

module _ {Tree : Type 0} (fs : FileTree Tree) where
  -- directory
  unfoldable pub handle_directory : PathIds → Database Tree → Result Directory
  handle_directory p db = elim (directory_path p) [
    | err e ↦ err e
    | ok (org, id) ↦ Directories.directory fs org id db
  ]

  -- file
  unfoldable pub handle_file : PathIds → Database Tree → Result File
  handle_file p db = elim (file_path p) [ err e ↦ err e | ok (org, id) ↦ Files.file fs org id db ]

  -- content; `widen` is the SDK's extension of a download's deadline, by the object's size
  unfoldable pub handle_content :
      (widen : ℕ → Result (Unit {0})) → PathIds → Database Tree → Result Content
  handle_content widen p db = elim (file_path p) [
    | err e ↦ err e
    | ok (org, id) ↦ elim (Files.content fs org id db) [
      | err e ↦ err e
      | ok c ↦ elim (widen c.object.size) [ err e ↦ err e | ok _ ↦ ok c ]
    ]
  ]

  module _ (en : Engine Tree) where
    -- deleteFile
    unfoldable pub handle_delete_file :
        Protocols (Database Tree)
        → PathIds
        → Result ℕ
        → Database Tree
        → Result (Unit {0}) × Database Tree
    handle_delete_file pr p version db = elim (file_path p) [
      | err e ↦ (err e, db)
      | ok (org, id) ↦ elim version [
        | err e ↦ (err e, db)
        | ok v ↦ Files.delete_file fs en pr org id v db
      ]
    ]

    module _ (is_uuid : String → Bool) (refuse_name : String → Option Error) where
      -- createDirectory, without the Location
      unfoldable pub handle_create_directory :
          (before after between : Database Tree → Database Tree)
          → Result String
          → Result CreateDirectory
          → Database Tree
          → Result Identity × Database Tree
      handle_create_directory before after between organization body db = elim organization [
        | err e ↦ (err e, db)
        | ok org ↦ elim body [
          | err e ↦ (err e, db)
          | ok c ↦ create_document_directory fs en is_uuid refuse_name before after between org c db
        ]
      ]

      -- moveFile
      unfoldable pub handle_move_file :
          Result String
          → Result (Guarded MoveFile)
          → Database Tree
          → Result Identity × Database Tree
      handle_move_file organization moved db = elim organization [
        | err e ↦ (err e, db)
        | ok org ↦ elim moved [
          | err e ↦ (err e, db)
          | ok g ↦ move_document_file fs en is_uuid refuse_name org g.id g.version g.body db
        ]
      ]

      -- moveDirectory
      unfoldable pub handle_move_directory :
          PathIds
          → Result ℕ
          → Result MoveDirectory
          → Database Tree
          → Result Identity × Database Tree
      handle_move_directory p version body db = elim (move_inputs p version body) [
        | err e ↦ (err e, db)
        | ok (org, g) ↦
            move_document_directory fs en is_uuid refuse_name org g.id g.version g.body db
      ]

      -- uploadFile
      unfoldable pub handle_upload_file :
          (before after : Database Tree → Database Tree)
          → Protocols (Database Tree)
          → PathIds
          → String
          → Result Upload
          → Result (Unit {0})
          → Database Tree
          → Result Identity × Database Tree
      handle_upload_file before after pr p name upload widen db =
          elim (upload_inputs p name upload widen) [
            | err e ↦ (err e, db)
            | ok ((org, id), (given, u)) ↦
                upload_document fs en is_uuid refuse_name before after pr org id given u db
          ]
