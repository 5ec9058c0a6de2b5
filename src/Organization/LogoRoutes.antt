-- ===== src/Organization/LogoRoutes.antt =====
-- The logo's routes of domain/organization/handler.go. A request carries what the web SDK's reads of
-- its path and its upload returned; `widen` is the SDK's extension of the connection's deadline, of
-- an upload in putLogo and, by the object's size, of a download in logo.
pub mod Refusals
use go_web_service.Prelude.{ℕ, String, Result, ok, err}
use go_web_service.Database.{Database}
use go_web_service.Blobfs.{FileTree}
use go_web_service.Blobfs.Protocols.{Protocols}
use go_web_service.Data.Storage.{Download}
use go_web_service.Organization.Backend.{Backend}
use go_web_service.Organization.Service.{put_organization_logo}
use go_web_service.Organization.Logos

-- web.Upload
pub record Upload : Type 0 where
  pub body : String
  pub size : ℕ
  pub content_type : String
  pub media_type : String

pub record PutRequest : Type 0 where
  pub path : String
  pub id : Result String
  pub upload : Result Upload
  pub widen : Result (Unit {0})

-- A 201 with its Location and the logo's id.
pub record Created : Type 0 where
  pub location : String
  pub file_id : String

-- The reads of putLogo, in order.
unfoldable pub accepted_upload : PutRequest → Result (String × Upload)
accepted_upload r = elim r.id [
  | err e ↦ err e
  | ok id ↦ elim r.upload [
    | err e ↦ err e
    | ok u ↦ elim r.widen [ err e ↦ err e | ok _ ↦ ok (id, u) ]
  ]
]

-- putLogo's answer, of what the service returned.
unfoldable pub created_at : {S : Type 0} → String → Result String × S → Result Created × S
created_at path (err e, db) = (err e, db)
created_at path (ok id, db) = (ok (record { location = path; file_id = id }), db)

module _ {Tree : Type 0} (fs : FileTree Tree) where
  -- logo
  unfoldable pub handle_logo :
      (widen : ℕ → Result (Unit {0})) → Result String → Database Tree → Result Download
  handle_logo widen (err e) db = err e
  handle_logo widen (ok id) db = elim (Logos.logo fs id db) [
    | err e ↦ err e
    | ok dl ↦ elim (widen dl.object.size) [ err e ↦ err e | ok _ ↦ ok dl ]
  ]

  module _ (b : Backend Tree) (pr : Protocols (Database Tree)) where
    -- putLogo; `minted` is the file's id, and `between` as the store has it.
    unfoldable pub handle_put_logo :
        (between : Database Tree → Database Tree)
        → String
        → PutRequest
        → Database Tree
        → Result Created × Database Tree
    handle_put_logo between minted r db = elim (accepted_upload r) [
      | err e ↦ (err e, db)
      | ok (id, u) ↦ created_at r.path (
          put_organization_logo fs b pr between id minted u.body u.size u.content_type u.media_type
            db)
    ]

    -- deleteLogo
    unfoldable pub handle_delete_logo :
        Result String → Database Tree → Result (Unit {0}) × Database Tree
    handle_delete_logo (err e) db = (err e, db)
    handle_delete_logo (ok id) db = Logos.delete_logo fs b.engine pr id db
