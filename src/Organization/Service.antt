-- ===== src/Organization/Service.antt =====
-- domain/organization/service.go: the commands as a handler calls them, each validated before any
-- I/O, and the domain's own problem matcher of handler.go.
pub mod Refusals
use go_web_service.Prelude.{
  ℕ, String, Bool, Option, none, some, if◌then◌else◌, Error, Sentinel, Result, ok, err, is,
}
use go_web_service.Database.{Database}
use go_web_service.Blobfs.{FileTree}
use go_web_service.Blobfs.Protocols.{Protocols}
use go_web_service.Data.Status.{Problem, bare, conflict, detail_conflict}
use go_web_service.Data.Storage.{Download}
use go_web_service.Organization.Backend.{Backend}
use go_web_service.Organization.Entities.{
  CreateOrganization, EditOrganization, TransferOrganization, Identity, validate_create,
  validate_edit, validate_transfer, logo_extension,
}
use go_web_service.Organization.Store
use go_web_service.Organization.Logos

-- status of handler.go
unfoldable pub matched_status : Error → Option Problem
matched_status e =
    if is e Sentinel.invalid_command
    then some (bare 400)
    else if is e Sentinel.transfer_cycle
    then some (conflict detail_conflict)
    else none

-- The command, once its own fields are accepted.
abbrev pub accepted : {S A : Type 0} → Option Error → (S → Result A × S) → S → Result A × S
accepted none command db = command db
accepted (some e) command db = (err e, db)

module _ {Tree : Type 0} (b : Backend Tree) (is_uuid : String → Bool) where
  unfoldable pub create_organization :
      CreateOrganization → Database Tree → Result Identity × Database Tree
  create_organization c = accepted (validate_create is_uuid c) (Store.create b c)

  unfoldable pub edit_organization :
      String → ℕ → EditOrganization → Database Tree → Result Identity × Database Tree
  edit_organization id version e = accepted (validate_edit e) (Store.edit b id version e)

  unfoldable pub transfer_organization :
      String → ℕ → TransferOrganization → Database Tree → Result Identity × Database Tree
  transfer_organization id version t =
      accepted (validate_transfer is_uuid t) (Store.transfer b id version t)

module _ {Tree : Type 0} (fs : FileTree Tree) (b : Backend Tree)
    (pr : Protocols (Database Tree)) where
  -- PutLogo: `id` is the file's minted id, and `between` as the store has it.
  unfoldable pub put_organization_logo :
      (between : Database Tree → Database Tree)
      → String
      → String
      → String
      → ℕ
      → String
      → String
      → Database Tree
      → Result String × Database Tree
  put_organization_logo between organization_id id body size content_type media_type db =
      elim (logo_extension media_type) [
        | err e ↦ (err e, db)
        | ok ext ↦
            Logos.put_logo fs b.engine pr between organization_id id ext body size content_type db
      ]
