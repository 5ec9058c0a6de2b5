-- ===== src/Organization/LogoRoutes/Refusals.antt =====
-- A logo's upload refused before any I/O.
use go_web_service.Prelude.{String, ◌≡◌, ◌⊎◌, inl, inr, ok, err, Error}
use go_web_service.Database.{Database}
use go_web_service.Blobfs.{FileTree}
use go_web_service.Blobfs.Protocols.{Protocols}
use go_web_service.Organization.Backend.{Backend}
use go_web_service.Organization.Entities.{logo_extension}
use go_web_service.Organization.Service.{put_organization_logo}
use go_web_service.Organization.LogoRoutes.{
  Upload, PutRequest, accepted_upload, created_at, handle_put_logo,
}

-- A request that the SDK refuses a read of, or whose media type has no extension.
abbrev pub IsRefused : PutRequest → Error → Type 0
IsRefused r e =
    (accepted_upload r ≡ err e)
    ⊎ ((id : String) × (u : Upload) × (accepted_upload r ≡ ok (id, u))
        × (logo_extension u.media_type ≡ err e))

module _ {Tree : Type 0} (fs : FileTree Tree) (b : Backend Tree)
    (pr : Protocols (Database Tree)) where
  -- A refused upload is answered by its error, and no row and no object is written.
  handle_put_logo-refused :
      (between : Database Tree → Database Tree) (minted : String) (r : PutRequest) {e : Error}
      → IsRefused r e
      → (db : Database Tree) → handle_put_logo fs b pr between minted r db ≡ (err e, db)
  unfolding handle_put_logo put_organization_logo created_at
  handle_put_logo-refused between minted r (inl refused) db = cc
  handle_put_logo-refused between minted r (inr (id, u, read, unlisted)) db = cc
