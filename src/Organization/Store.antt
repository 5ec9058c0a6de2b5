-- ===== src/Organization/Store.antt =====
-- domain/organization/database.go: the store's commands, and raiseStored of messaging.go. Each is
-- emitting code that the engine records and runs in one transaction.
pub mod Effects
pub mod Guarded
pub mod Commands
pub mod Invariant
pub mod Registry
pub mod Refinement
pub mod Tests
use go_web_service.Prelude.{
  ℕ, zero, suc, String, Option, none, some, Error, Sentinel, sentinel, wrap, Result, ok, err,
  wrapping,
}
use go_web_service.Database.{Database}
use go_web_service.Database.Events.{EventData}
use go_web_service.Database.Transactions.{Tx, Emitting, ◌>>=◌, ◌>>◌, pure, reading, on_db, raise}
use go_web_service.Database.Engine.Commands.{command}
use go_web_service.Organization.Backend.{Backend}
use go_web_service.Organization.Entities.{
  Organization, CreateOrganization, EditOrganization, TransferOrganization, Identity,
  OrganizationData,
}
use go_web_service.Organization.Statements.{
  in_subtree, stored, version, insert_row, update_row, delete_row,
}

-- `Identity{ID: id, Version: v}, err`
abbrev pub identity : String → Result ℕ → Result Identity
identity id (ok w) = ok (record { id = id; version = w })
identity id (err e) = err e

-- exists
unfoldable pub exists : {Tree : Type 0} → String → Tx (Database Tree) (Unit {0})
exists id db = elim (version id db) [
  | none ↦ err (sentinel Sentinel.no_rows)
  | some v ↦ ok (tt, db)
]

module _ {Tree : Type 0} (b : Backend Tree) where
  unfoldable pub raise_stored :
      (OrganizationData → EventData) → String → Emitting (Database Tree) (Unit {0})
  raise_stored kind id = do
    o ← reading (λ d. wrapping "the organization after its change" (stored id d.db))
    raise id (kind o)

  -- create
  unfoldable pub create_body : CreateOrganization → Emitting (Database Tree) Identity
  create_body c = do
    ident ← on_db (insert_row b.mint b.now c)
    raise_stored EventData.organization_created ident.id
    pure ident

  unfoldable pub create : CreateOrganization → Database Tree → Result Identity × Database Tree
  create c = command b.engine (create_body c)

  -- edit
  abbrev pub edited : EditOrganization → Database Tree → Organization → Organization
  edited e db r = let r' = b.guard.advance db r in record r' { code = e.code; name = e.name }

  abbrev pub edit_statement : String → ℕ → EditOrganization → Tx (Database Tree) ℕ
  edit_statement id v e db = update_row (b.guard.matches id v) (edited e db) db.organizations db

  unfoldable pub edit_body : String → ℕ → EditOrganization → Emitting (Database Tree) ℕ
  edit_body id v e = do
    w ← on_db (b.guard.run (edit_statement id v e) (version id) v)
    raise_stored EventData.organization_edited id
    pure w

  unfoldable pub edit :
      String → ℕ → EditOrganization → Database Tree → Result Identity × Database Tree
  edit id v e db = let (r, db') = command b.engine (edit_body id v e) db in (identity id r, db')

  -- transfer: the cycle check, for a new parent that is not null
  unfoldable pub refuse_cycle : String → Option String → Emitting (Database Tree) (Unit {0})
  refuse_cycle id none d = ok (tt, d)
  refuse_cycle id (some p) d = elim (in_subtree id p d.db.organizations) [
    | none ↦ err (Error.plain "the recursive query does not end")
    | some zero ↦ ok (tt, d)
    | some (suc n) ↦
        err (wrap "the new parent is in the subtree" (sentinel Sentinel.transfer_cycle))
  ]

  abbrev pub transferred : TransferOrganization → Database Tree → Organization → Organization
  transferred t db r = let r' = b.guard.advance db r in record r' { parent_id = t.parent_id }

  abbrev pub transfer_statement : String → ℕ → TransferOrganization → Tx (Database Tree) ℕ
  transfer_statement id v t db =
      update_row (b.guard.matches id v) (transferred t db) db.organizations db

  unfoldable pub transfer_body : String → ℕ → TransferOrganization → Emitting (Database Tree) ℕ
  transfer_body id v t = do
    on_db b.lock
    refuse_cycle id t.parent_id
    w ← on_db (b.guard.run (transfer_statement id v t) (version id) v)
    raise_stored EventData.organization_transferred id
    pure w

  unfoldable pub transfer :
      String → ℕ → TransferOrganization → Database Tree → Result Identity × Database Tree
  transfer id v t db =
      let (r, db') = command b.engine (transfer_body id v t) db in (identity id r, db')

  -- delete
  abbrev pub delete_statement : String → ℕ → Tx (Database Tree) ℕ
  delete_statement id v db = delete_row (b.guard.matches id v) db.organizations db

  unfoldable pub delete_body : String → ℕ → Emitting (Database Tree) (Unit {0})
  delete_body id v = do
    on_db (b.guard.run (delete_statement id v) (version id) v)
    raise id (EventData.organization_deleted (record { organization_id = id; version = v }))

  unfoldable pub delete : String → ℕ → Database Tree → Result (Unit {0}) × Database Tree
  delete id v db = command b.engine (delete_body id v) db
