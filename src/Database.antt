-- ===== src/Database.antt =====
-- The state that the domains share: the rows of the service's own tables (data/migrations), the
-- rows of blobfs, whose type is the parameter `Tree`, and the outbox's events in commit order.
pub mod Events
pub mod Transactions
pub mod Engine
use go_web_service.Prelude.{String, Bool, List}
use go_web_service.Organization.Entities.{Organization}
use Events.{Event}

-- One row of organization_image (0002_organization_image.up.sql).
pub record Image : Type 0 where
  pub organization_id : String
  pub file_id : String
  pub active : Bool

-- One row of organization_directory (0003_organization_directory.up.sql).
pub record OwnerRow : Type 0 where
  pub directory_id : String
  pub organization_id : String

pub record Database (Tree : Type 0) : Type 0 where
  pub organizations : List Organization
  pub images : List Image
  pub owners : List OwnerRow
  pub tree : Tree
  pub outbox : List Event
