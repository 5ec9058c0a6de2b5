-- ===== src/Organization/Entities.antt =====
-- domain/organization/entities.go: the commands and their validation, the identities and the event
-- data, the logo's allowlist. Timestamps are left to the engine; `uuid.Parse` is the parameter
-- `is_uuid`.
pub mod Transfers
use go_web_service.Prelude.{
  ℕ, String, Bool, true, false, Option, none, some, List, [], ◌∷◌, if◌then◌else◌, ◌==◌, Error,
  Sentinel, sentinel, wrap, typed, Typed, Result, ok, err, join_errors,
}
use go_web_service.Organization.Code.{matches_code}

-- One row of the table `organization`. A null parent_id is `none`.
pub record Organization : Type 0 where
  pub id : String
  pub parent_id : Option String
  pub code : String
  pub name : String
  pub version : ℕ
  pub created_at : ℕ
  pub updated_at : ℕ

pub record CreateOrganization : Type 0 where
  pub parent_id : Option String
  pub code : String
  pub name : String

pub record EditOrganization : Type 0 where
  pub code : String
  pub name : String

-- `present` is whether the body carried the key parent_id.
pub record TransferOrganization : Type 0 where
  pub parent_id : Option String
  pub present : Bool

pub record Identity : Type 0 where
  pub id : String
  pub version : ℕ

pub record OrganizationData : Type 0 where
  pub organization_id : String
  pub parent_id : Option String
  pub code : String
  pub name : String
  pub version : ℕ

pub record OrganizationDeletedData : Type 0 where
  pub organization_id : String
  pub version : ℕ

pub record LogoUploadedData : Type 0 where
  pub file_id : String
  pub organization_id : String
  pub content_type : String
  pub size : ℕ
  pub etag : String
  pub version : ℕ

pub record LogoDeletedData : Type 0 where
  pub file_id : String
  pub organization_id : String
  pub version : ℕ

-- One organization of a named state; the empty parent is the root.
pub record SeedRow : Type 0 where
  pub parent : String
  pub code : String
  pub name : String

-- fmt.Errorf("%w: ...", ErrValidation)
abbrev pub invalid : String → Error
invalid reason = wrap reason (sentinel Sentinel.invalid_command)

unfoldable pub valid_code : String → Option Error
unfolding matches_code
valid_code code =
    if matches_code code
    then none
    else some (invalid "code must be lowercase words joined by single hyphens")

unfoldable pub valid_name : String → Option Error
valid_name name = if name == "" then some (invalid "name must not be empty") else none

module _ (is_uuid : String → Bool) where
  unfoldable pub valid_parent : Option String → Option Error
  valid_parent none = none
  valid_parent (some parent) =
      if is_uuid parent then none else some (invalid "parent_id must be a UUID")

  unfoldable pub validate_create : CreateOrganization → Option Error
  unfolding valid_code valid_name valid_parent
  validate_create c =
      join_errors (join_errors (valid_code c.code) (valid_name c.name)) (valid_parent c.parent_id)

  unfoldable pub validate_transfer : TransferOrganization → Option Error
  unfolding valid_parent
  validate_transfer t =
      if t.present
      then valid_parent t.parent_id
      else some (invalid "parent_id is required; null moves the organization to the root")

unfoldable pub validate_edit : EditOrganization → Option Error
unfolding valid_code valid_name
validate_edit e = join_errors (valid_code e.code) (valid_name e.name)

-- A JSON value as UnmarshalJSON reads it into a *string: null, a text, or another value with the
-- decoder's refusal.
pub data JsonValue : Type 0 where
  null : JsonValue
  text : String → JsonValue
  other : Error → JsonValue

-- The first key of the body that the command does not take, and the value under `parent_id`. The
-- keys of an object that was decoded into a map are distinct.
unfoldable pub unknown_key : List (String × JsonValue) → Option String
unknown_key [] = none
unknown_key ((key, _) ∷ rest) =
    let later = unknown_key rest in if key == "parent_id" then later else some key

unfoldable pub raw_parent : List (String × JsonValue) → Option JsonValue
raw_parent [] = none
raw_parent ((key, value) ∷ rest) =
    let later = raw_parent rest in if key == "parent_id" then some value else later

unfoldable pub decode_parent : Option JsonValue → Result TransferOrganization
decode_parent none = ok (record { parent_id = none; present = false })
decode_parent (some null) = ok (record { parent_id = none; present = true })
decode_parent (some (text s)) = ok (record { parent_id = some s; present = true })
decode_parent (some (other e)) = err e

-- TransferOrganization.UnmarshalJSON, over the object that the body holds, or the decoder's error.
unfoldable pub unmarshal_transfer : Result (List (String × JsonValue)) → Result TransferOrganization
unfolding unknown_key raw_parent decode_parent
unmarshal_transfer (err e) = err e
unmarshal_transfer (ok raw) =
    let decoded = decode_parent (raw_parent raw) in
    elim (unknown_key raw) [ none ↦ decoded | some key ↦ err (Error.plain "json: unknown field") ]

-- logoTypes
abbrev pub logo_types : List (String × String)
logo_types =
    ("image/png", ".png")
    ∷ ("image/jpeg", ".jpg")
    ∷ ("image/webp", ".webp")
    ∷ ("image/gif", ".gif")
    ∷ []

pub lookup_type : List (String × String) → String → Option String
lookup_type [] key = none
lookup_type ((k, v) ∷ rest) key =
    let later = lookup_type rest key in if k == key then some v else later

unfoldable pub logo_extension : String → Result String
unfolding lookup_type
logo_extension media_type = elim (lookup_type logo_types media_type) [
  | none ↦ err (
      typed (Typed.upload_error "Content-Type") "a logo is PNG, JPEG, WebP, or GIF"
        (Error.plain ""))
  | some ext ↦ ok ext
]
