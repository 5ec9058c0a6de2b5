-- ===== src/Database/Engine.antt =====
-- The libraries that the stores run on, as parameters: sqlate's transactions, and go-core's event
-- recorder over go-messaging's outbox. The laws are what the code relies on.
mod Outcomes
pub mod Commands
pub mod Sample
pub use Outcomes.*
use go_web_service.Prelude.{◌≡◌, [], Option, Error, Result}
use go_web_service.Database.{Database}
use go_web_service.Database.Transactions.{Tx, Draft, Emitting}

pub record Engine (Tree : Type 0) : Type 1 where
  -- sqlate.DB.Transact: the function in one transaction, committed if it returns no error.
  pub transact : (A : Type 0) → Tx (Database Tree) A → Database Tree → Result A × Database Tree
  -- A commit may be refused; then nothing of the transaction stands.
  pub commit_fault : Database Tree → Option Error
  pub transact_lem :
      (A : Type 0) (f : Tx (Database Tree) A) (db : Database Tree)
      → transact A f db ≡ settle commit_fault db (f db)
  -- event.Recorder.Emit: the function with a fresh queue, and the queue written into its
  -- transaction once it returns no error.
  pub emit : (A : Type 0) → Emitting (Database Tree) A → Tx (Database Tree) A
  -- The write of the queue into the outbox may be refused.
  pub publish_fault : Draft (Database Tree) → Option Error
  pub emit_lem :
      (A : Type 0) (f : Emitting (Database Tree) A) (db : Database Tree)
      → emit A f db ≡ recorded publish_fault (f (record { db = db; queue = [] }))
