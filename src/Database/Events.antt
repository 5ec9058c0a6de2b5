-- ===== src/Database/Events.antt =====
-- The events that the commands emit (domain/organization/messaging.go and
-- domain/document/messaging.go): an event's kind is its constructor, which carries its data.
use go_web_service.Prelude.{String}
use go_web_service.Organization.Entities.{
  OrganizationData, OrganizationDeletedData, LogoUploadedData, LogoDeletedData,
}
use go_web_service.Document.Entities.{
  DirectoryData, DirectoryDeletedData, FileUploadedData, FileDeletedData,
}

pub data EventData : Type 0 where
  organization_created organization_edited organization_transferred : OrganizationData → EventData
  organization_deleted : OrganizationDeletedData → EventData
  logo_uploaded : LogoUploadedData → EventData
  logo_deleted : LogoDeletedData → EventData
  directory_created directory_moved : DirectoryData → EventData
  directory_deleted : DirectoryDeletedData → EventData
  file_uploaded file_moved : FileUploadedData → EventData
  file_deleted : FileDeletedData → EventData

-- The subject is the id of the entity that the type names.
pub record Event : Type 0 where
  pub subject : String
  pub body : EventData
