-- ===== src/Organization/Tests.antt =====
-- A logo's activation over an active one, and a seed of a tree.
use go_web_service.Prelude.{
  String, ◌≡◌, is, Result, Error, Bool, true, false, refl, none, some, List, [], ◌∷◌, arith, ok,
  err,
}
use go_web_service.Database.{Database}
use go_web_service.Database.Engine.Sample.{engine}
use go_web_service.Database.Engine.Commands.{command}
use go_web_service.Blobfs.Sample.{tree, file_row}
use go_web_service.Organization.Backend.Sample.{backend}
use go_web_service.Organization.Code.{matches_code}
use go_web_service.Organization.Entities.{
  Organization, SeedRow, CreateOrganization, EditOrganization, TransferOrganization, invalid,
  valid_code, valid_name, valid_parent, validate_create, validate_edit, validate_transfer, null,
  unmarshal_transfer, logo_extension, unknown_key, raw_parent, decode_parent,
}
use go_web_service.Organization.Entities.Transfers.{Names, unmarshal_transfer-Names}
use go_web_service.Organization.Schema.{find_row, constraint_fault, parent_exists}
use go_web_service.Organization.Statements.{new_row, stored}
use go_web_service.Organization.Service.{
  create_organization, edit_organization, transfer_organization,
}
use go_web_service.Organization.Service.Refusals.{IsRefused, invalid-matched_status}
use go_web_service.Organization.Store.{raise_stored}
use go_web_service.Organization.Store.Invariant.{IsSound}
use go_web_service.Organization.Seed.{
  apply, seed_row, seed_parent, seeded_id, seed_one, seed_body, seed_statement, found_seeded,
}
use go_web_service.Organization.Seed.Growth.{HasGrown}
use go_web_service.Organization.Seed.Invariant.{apply-IsSound}
use go_web_service.Organization.Logos.{
  activate_body, active_logo, attach, detach, release, replace, raise_uploaded,
}
use go_web_service.Organization.Logos.Seeds
use go_web_service.Organization.Logos.Seeds.{
  LogoSeedRow, Fixture, check_fixture, attach_seed, attach_unless, settle_seed, activate_seed,
  write_seed, seed_unless, seed_logo,
}
use go_web_service.Organization.Logos.Seeds.Effects.{IsCounted, seed_logo-IsCounted}
use go_web_service.Blobfs.Protocols.{Protocols}
use go_web_service.Organization.Logos.Commands.{IsActivated, activate-ok}

abbrev organization : Organization
organization = record {
  id = "o";
  parent_id = none;
  code = "o";
  name = "O";
  version = 1;
  created_at = 0;
  updated_at = 0;
}

abbrev base : Database Bool
base = record {
  organizations = organization ∷ [];
  images = record { organization_id = "o"; file_id = "old"; active = true } ∷ [];
  owners = [];
  tree = false;
  outbox = [];
}

activate-ok_example :
    IsActivated tree "o"
      (file_row "new")
      base
      (command engine (activate_body tree "o" (file_row "new")) base).1
unfolding activate_body active_logo attach detach release replace raise_uploaded find_row
activate-ok_example = activate-ok tree engine "o" (file_row "new") base refl

abbrev empty : Database Bool
empty = record { organizations = []; images = []; owners = []; tree = false; outbox = [] }

empty-IsSound : IsSound {Tree = Bool} backend empty
unfolding find_row
empty-IsSound = record {
  keys = tt;
  checks = λ id r h. absurd (ground arith);
  siblings = λ i j a b h k e. absurd (ground arith);
  forest = λ id r h. absurd (ground arith);
}

abbrev rows : List SeedRow
rows =
    record { parent = ""; code = "acme"; name = "Acme" }
    ∷ record { parent = "acme"; code = "labs"; name = "Labs" }
    ∷ []

abbrev seeded : Database Bool
seeded = elim (apply backend [] 0 rows empty) [ err e ↦ empty | ok (n, db) ↦ db ]

apply-IsSound_example :
    IsSound {Tree = Bool} backend seeded × HasGrown {Tree = Bool} backend 0 2 empty seeded
unfolding apply seed_row seed_parent seeded_id seed_one seed_body seed_statement found_seeded
    new_row raise_stored stored find_row constraint_fault parent_exists matches_code
apply-IsSound_example =
    apply-IsSound backend [] 0 rows empty {m = 2} {db' = seeded} empty-IsSound refl

abbrev no_uuid : String → Bool
no_uuid s = false

abbrev bad_create : CreateOrganization
bad_create = record { parent_id = some "x"; code = "ok"; name = "Ok" }

abbrev bad_edit : EditOrganization
bad_edit = record { code = "ok"; name = "" }

abbrev bad_transfer : TransferOrganization
bad_transfer = record { parent_id = none; present = false }

abbrev not_uuid : Error
not_uuid = invalid "parent_id must be a UUID"

abbrev no_name : Error
no_name = invalid "name must not be empty"

abbrev no_key : Error
no_key = invalid "parent_id is required; null moves the organization to the root"

invalid-matched_status_example :
    IsRefused not_uuid (create_organization backend no_uuid bad_create base) base
    × IsRefused no_name (edit_organization backend no_uuid "o" 1 bad_edit base) base
    × IsRefused no_key (transfer_organization backend no_uuid "o" 1 bad_transfer base) base
unfolding validate_create validate_edit validate_transfer valid_code valid_name valid_parent
    matches_code
invalid-matched_status_example =
    invalid-matched_status backend no_uuid base "o" 1 bad_create bad_edit bad_transfer not_uuid
      no_name no_key refl refl refl

unmarshal_transfer-Names_example :
    (unknown_key (("parent_id", null) ∷ []) ≡ none)
    × Names (raw_parent (("parent_id", null) ∷ [])) none
unfolding unmarshal_transfer unknown_key raw_parent decode_parent validate_transfer valid_parent
unmarshal_transfer-Names_example =
    unmarshal_transfer-Names no_uuid (("parent_id", null) ∷ [])
      {t = record { parent_id = none; present = true }} refl refl

abbrev logo_row : LogoSeedRow
logo_row = record { id = "l"; organization = "/o"; fixture = "logo.png" }

abbrev fixtures : String → Result Fixture
fixtures name = ok (record { body = "bytes"; size = 5 })

abbrev detect : String → String
detect body = "image/png"

abbrev by_path : String → Database Bool → Result String
by_path path db = ok "o"

abbrev bare_organization : Database Bool
bare_organization = record {
  organizations = organization ∷ [];
  images = [];
  owners = [];
  tree = false;
  outbox = [];
}

abbrev protocols : Protocols (Database Bool)
protocols = record {
  write_file = λ body size create hook db. (ok (file_row "l"), db);
  remove_file = λ check version hook db. (ok tt, db);
  remove_file_id = λ id version db. (ok tt, db);
  purge_file = λ f db. (ok tt, db);
  ensure_file = λ dir id name content_type content hook db. (ok (file_row "l", true), db);
}

abbrev kept : Database Bool → Database Bool
kept db = db

seed_logo-IsCounted_example :
    IsCounted tree engine protocols kept kept detect fixtures by_path logo_row bare_organization
      (seed_logo tree engine protocols kept kept detect fixtures by_path logo_row
        bare_organization).1
unfolding seed_logo check_fixture seed_unless write_seed activate_seed settle_seed Seeds.seed_body
    attach_unless attach_seed active_logo attach raise_uploaded find_row is logo_extension
seed_logo-IsCounted_example =
    seed_logo-IsCounted tree engine protocols kept kept detect fixtures by_path logo_row
      bare_organization refl
