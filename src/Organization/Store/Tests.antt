-- ===== src/Organization/Store/Tests.antt =====
-- The organization's commands on a table of three rows: a root, its child and a second root.
use go_web_service.Prelude.{
  ℕ, String, ◌≡◌, ◌↔◌, refl, arith, true, false, some, none, List, [], ◌∷◌, ◌++◌,
}
use go_web_service.Database.{Database}
use go_web_service.Database.Events.{EventData}
use go_web_service.Organization.Backend.Sample.{backend}
use go_web_service.Organization.Code.{matches_code}
use go_web_service.Organization.Code.Laws.{Words, matches_code_iff}
use go_web_service.Organization.Entities.{
  Organization, CreateOrganization, EditOrganization, TransferOrganization, Identity,
}
use go_web_service.Organization.Schema.{
  find_row, constraint_fault, replace_row, remove_row, parent_exists, violation,
}
use go_web_service.Organization.Statements.{
  in_subtree, ancestors, new_row, insert_row, data_of, update_row, is_referenced, delete_row,
  stored, version,
}
use go_web_service.Organization.Table.{HasKeys, IsTable}
use go_web_service.Organization.Forest.{Rooted, top, under}
use go_web_service.Organization.Forest.Walk.{Avoids, chain, in_subtree-ends}
use go_web_service.Organization.Store.{
  create, create_body, transfer_body, refuse_cycle, delete_body, edit, edit_body, raise_stored,
  edited, transfer, transferred, delete,
}
use go_web_service.Organization.Store.Effects.{create-ok, after, event}
use go_web_service.Organization.Store.Commands.{
  IsApplied, IsOutside, IsRemoved, edit-ok, transfer-ok, delete-ok, edited-id, transferred-id,
}
use go_web_service.Organization.Store.Refinement.{registry, outcomes, run-Steps}
use go_web_service.Organization.Store.Registry.{Steps}
use go_web_service.Organization.Store.Invariant.{
  IsSound, Command, create_organization, edit_organization, transfer_organization,
  delete_organization, run, run-IsSound,
}

abbrev row : String → Organization
row id = record {
  id = id;
  parent_id = none;
  code = id;
  name = id;
  version = 1;
  created_at = 0;
  updated_at = 0;
}

abbrev child : Organization
child = record {
  id = "c";
  parent_id = some "r";
  code = "c";
  name = "c";
  version = 1;
  created_at = 0;
  updated_at = 0;
}

abbrev rows : List Organization
rows = row "r" ∷ child ∷ row "s" ∷ []

abbrev with_table : List Organization → Database (Unit {0})
with_table table = record {
  organizations = table;
  images = [];
  owners = [];
  tree = tt;
  outbox = [];
}

abbrev base : Database (Unit {0})
base = with_table rows

keys : HasKeys rows
unfolding find_row
keys = (refl, (refl, (refl, tt)))

abbrev recoded : EditOrganization
recoded = record { code = "new-code"; name = "New" }

edit-ok_example :
    IsApplied backend "c" 1 base
      (edited backend recoded base)
      (edited-id backend recoded base)
      EventData.organization_edited
      (record { id = "c"; version = 2 })
      (edit backend "c" 1 recoded base).1
unfolding edit edit_body update_row raise_stored constraint_fault stored find_row replace_row
    remove_row matches_code parent_exists version violation
edit-ok_example = edit-ok backend "c" 1 base recoded keys refl

abbrev second : CreateOrganization
second = record { parent_id = some "r"; code = "d-1"; name = "D" }

create-ok_example :
    let r = new_row {Tree = Unit {0}} backend.mint backend.now (some "r") "d-1" "D" base in
    (constraint_fault base.organizations r ≡ none)
    × (◌≡◌ {A = Identity} (record { id = "aaaa"; version = 1 }) (record { id = r.id; version = 1 }))
    × ((create backend second base).1
        ≡ after base
            (base.organizations ++ r ∷ [])
            (event r.id (EventData.organization_created (data_of r))))
unfolding create create_body insert_row new_row raise_stored constraint_fault stored find_row
    matches_code parent_exists violation
create-ok_example = create-ok backend second base refl

abbrev under_s : TransferOrganization
under_s = record { parent_id = some "s"; present = true }

transfer-ok_example :
    IsOutside backend "c" 1 base (some "s")
    × IsApplied backend "c" 1 base
        (transferred backend under_s base)
        (transferred-id backend under_s base)
        EventData.organization_transferred
        (record { id = "c"; version = 2 })
        (transfer backend "c" 1 under_s base).1
unfolding transfer transfer_body refuse_cycle in_subtree ancestors update_row raise_stored
    constraint_fault stored find_row replace_row remove_row matches_code parent_exists version
    violation
transfer-ok_example = transfer-ok backend "c" 1 base under_s keys refl

delete-ok_example : IsRemoved backend "c" 1 base (delete backend "c" 1 base).1
unfolding delete delete_body delete_row is_referenced find_row remove_row version violation
delete-ok_example = delete-ok backend "c" 1 base keys refl

abbrev empty : Database (Unit {0})
empty = with_table []

empty-IsTable : IsTable []
unfolding find_row
empty-IsTable = record {
  keys = tt;
  checks = λ id r h. absurd (ground arith);
  siblings = λ i j a b h k e. absurd (ground arith);
  forest = λ id r h. absurd (ground arith);
}

-- Two organizations are created, the first is renamed, and a transfer that would close a cycle and a
-- delete of a referenced row are refused.
abbrev commands : List Command
commands =
    create_organization (record { parent_id = none; code = "root"; name = "Root" })
    ∷ create_organization (record { parent_id = some "a"; code = "child"; name = "Child" })
    ∷ edit_organization "a" 1 recoded
    ∷ transfer_organization "a" 2 (record { parent_id = some "aa"; present = true })
    ∷ delete_organization "a" 2
    ∷ []

run-IsSound_example : IsSound backend (run backend commands empty)
run-IsSound_example = run-IsSound backend commands empty empty-IsTable

run-Steps_example :
    Steps (outcomes backend commands empty) (registry empty) (registry (run backend commands empty))
run-Steps_example = run-Steps backend commands empty empty-IsTable

child-Rooted : Rooted rows 2 "c"
unfolding find_row
child-Rooted = under child "r" refl refl (top (row "r") refl refl)

in_subtree-ends_example :
    (k : ℕ) × (in_subtree "r" "c" rows ≡ some k) × ((k ≡ 0) ↔ Avoids "r" (chain child-Rooted))
in_subtree-ends_example = in_subtree-ends "r" "c" child-Rooted

matches_code_iff_example : (matches_code "ab-3" ≡ true) ↔ Words false "ab-3"
matches_code_iff_example = matches_code_iff "ab-3"
