-- ===== src/Organization/Backend.antt =====
-- What the organization's store runs on: sqlate's engine and guard, the engine's defaults for a new
-- row, and the tree's advisory lock.
pub mod Sample
use go_web_service.Prelude.{ℕ, String, ◌≡◌, Option, none, Result, ok}
use go_web_service.Database.{Database}
use go_web_service.Database.Transactions.{Tx}
use go_web_service.Database.Engine.{Engine}
use go_web_service.Organization.Schema.{find_row}
use go_web_service.Organization.Statements.Guard.{Guard}

pub record Backend (Tree : Type 0) : Type 1 where
  pub engine : Engine Tree
  pub guard : Guard (Database Tree)
  -- DEFAULT uuidv7(): an id that no row has.
  pub mint : Database Tree → String
  pub mint_fresh : (db : Database Tree) → find_row (mint db) db.organizations ≡ none
  -- DEFAULT now()
  pub now : Database Tree → ℕ
  -- data.Database.Lock under LockOrganizationTree: it waits, and changes no row.
  pub lock : Tx (Database Tree) (Unit {0})
  pub lock_lem : {db db' : Database Tree} → lock db ≡ ok (tt, db') → db' ≡ db
