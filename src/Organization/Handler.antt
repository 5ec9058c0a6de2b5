-- ===== src/Organization/Handler.antt =====
-- domain/organization/handler.go: the routes that change an organization. A
-- request carries what the web SDK's reads of its path, its If-Match header and its body returned; a
-- response is what is written with the error writer not called.
pub mod Requests
mod Tests
use Prim.Native.String
use go_web_service.Prelude.{ℕ, String, Bool, Option, none, some, Error, Sentinel, Result, ok, err}
use go_web_service.Sdk.{Guarded, command, precondition}
use go_web_service.Database.{Database}
use go_web_service.Data.Status.{Problem}
use go_web_service.Data.Status
use go_web_service.Organization.Backend.{Backend}
use go_web_service.Organization.Entities.{
  CreateOrganization, EditOrganization, TransferOrganization, Identity,
}
use go_web_service.Organization.Store
use go_web_service.Organization.Service.{
  matched_status, create_organization, edit_organization, transfer_organization,
}

pub data Request : Type 0 where
  -- The request's path, and the body.
  create_request : String → Result CreateOrganization → Request
  edit_request : Result String → Result ℕ → Result EditOrganization → Request
  transfer_request : Result String → Result ℕ → Result TransferOrganization → Request
  delete_request : Result String → Result ℕ → Request

pub data Response : Type 0 where
  -- 201 with a Location
  created : String → Identity → Response
  -- 200
  changed : Identity → Response
  -- 204
  no_content : Response

-- The error writer's matchers: the domain's, then the data package's.
unfoldable pub problem : (Sentinel → String) → Error → Option Problem
problem sentinel_text e = elim (matched_status e) [
  | some p ↦ some p
  | none ↦ Status.status sentinel_text e
]

-- A handler's answer, of what the service returned.
abbrev pub answered : {S A : Type 0} → (A → Response) → Result A × S → Result Response × S
answered f (err e, db) = (err e, db)
answered f (ok a, db) = (ok (f a), db)

module _ {Tree : Type 0} (b : Backend Tree) (is_uuid : String → Bool) where
  -- create
  unfoldable pub handle_create :
      String → Result CreateOrganization → Database Tree → Result Response × Database Tree
  handle_create path (err e) db = (err e, db)
  handle_create path (ok body) db =
      answered (λ i. created (String.◌++◌ path (String.◌++◌ "/" i.id)) i)
        (create_organization b is_uuid body db)

  -- edit
  unfoldable pub handle_edit :
      Result (Guarded EditOrganization) → Database Tree → Result Response × Database Tree
  handle_edit (err e) db = (err e, db)
  handle_edit (ok g) db = answered changed (edit_organization b is_uuid g.id g.version g.body db)

  -- transfer
  unfoldable pub handle_transfer :
      Result (Guarded TransferOrganization) → Database Tree → Result Response × Database Tree
  handle_transfer (err e) db = (err e, db)
  handle_transfer (ok g) db =
      answered changed (transfer_organization b is_uuid g.id g.version g.body db)

  -- delete
  unfoldable pub handle_delete :
      Result (String × ℕ) → Database Tree → Result Response × Database Tree
  handle_delete (err e) db = (err e, db)
  handle_delete (ok (id, version)) db = answered (λ _. no_content) (Store.delete b id version db)

  unfoldable pub handle : Request → Database Tree → Result Response × Database Tree
  unfolding handle_create handle_edit handle_transfer handle_delete command precondition
  handle (create_request path body) db = handle_create path body db
  handle (edit_request id version body) db = handle_edit (command id version body) db
  handle (transfer_request id version body) db = handle_transfer (command id version body) db
  handle (delete_request id version) db = handle_delete (precondition id version) db
