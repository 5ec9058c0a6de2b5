-- ===== src/Organization/Store/Registry.antt =====
-- The abstract view of the store: a registry of rows under their ids, whose order and surrounding
-- tables are forgotten, and the step that each command may be.
use go_web_service.Prelude.{
  ℕ, ◌+◌, String, ◌≡◌, false, Option, none, some, List, [], ◌∷◌, ◌==◌, if◌then◌else◌, Bool, true,
}
use go_web_service.Organization.Entities.{
  Organization, CreateOrganization, EditOrganization, TransferOrganization,
}
use go_web_service.Organization.Schema.{is_parent}
use go_web_service.Organization.Store.Invariant.{
  Command, create_organization, edit_organization, transfer_organization, delete_organization,
}

abbrev pub Registry : Type 0
Registry = String → Option Organization

abbrev pub put : Organization → Registry → Registry
put r s id = if r.id == id then some r else s id

abbrev pub drop : String → Registry → Registry
drop key s id = if key == id then none else s id

-- What a command does, by whether it returned no error: its one change, with what it was given, and
-- nothing if it was refused.
pub data Allowed (s : Registry) : Command → Bool → Registry → Type 0 where
  refused : {c : Command} → Allowed s c false s
  -- The row as given, under an id that none has, at version 1.
  created :
      (c : CreateOrganization) (r : Organization)
      → s r.id ≡ none
      → r.version ≡ 1
      → r.parent_id ≡ c.parent_id
      → (r.code ≡ c.code) × (r.name ≡ c.name)
      → Allowed s (create_organization c) true (put r s)
  -- The row under the id at the next version, with the code and the name given, under its own parent.
  edited_row :
      (id : String) (v : ℕ) (e : EditOrganization) (r old : Organization)
      → s id ≡ some old
      → r.id ≡ id
      → (old.version ≡ v) × (r.version ≡ v + 1)
      → r.parent_id ≡ old.parent_id
      → (r.code ≡ e.code) × (r.name ≡ e.name)
      → Allowed s (edit_organization id v e) true (put r s)
  -- The row under the id at the next version, under the parent given, with its own code and name.
  transferred_row :
      (id : String) (v : ℕ) (t : TransferOrganization) (r old : Organization)
      → s id ≡ some old
      → r.id ≡ id
      → (old.version ≡ v) × (r.version ≡ v + 1)
      → r.parent_id ≡ t.parent_id
      → (r.code ≡ old.code) × (r.name ≡ old.name)
      → Allowed s (transfer_organization id v t) true (put r s)
  -- The row under the id, at the version and no row's parent, taken out.
  deleted :
      (id : String) (v : ℕ) (r : Organization)
      → s id ≡ some r
      → r.version ≡ v
      → ((j : String) (c : Organization) → s j ≡ some c → is_parent id c.parent_id ≡ false)
      → Allowed s (delete_organization id v) true (drop id s)

-- Commands one after another, each with whether it returned no error, and one step of the registry.
pub data Steps : List (Command × Bool) → Registry → Registry → Type 0 where
  stay : {s : Registry} → Steps [] s s
  next :
      {c : Command} {done : Bool} {cs : List (Command × Bool)} {s t u : Registry}
      → Allowed s c done t
      → Steps cs t u
      → Steps ((c, done) ∷ cs) s u
