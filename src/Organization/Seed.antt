-- ===== src/Organization/Seed.antt =====
-- The seed's contribution of domain/organization/database.go: the organizations of a named state,
-- inserted in the seed's transaction, each parent before its children.
pub mod Growth
pub mod Invariant
use go_web_service.Prelude.{
  ℕ, suc, ◌+◌, String, Bool, true, false, Option, none, some, List, [], ◌∷◌, ◌++◌, if◌then◌else◌,
  ◌==◌, Error, Sentinel, Result, ok, err, is, wrap,
}
use go_web_service.Database.{Database}
use go_web_service.Database.Events.{EventData}
use go_web_service.Database.Transactions.{Tx, Emitting, ◌>>=◌, ◌>>◌, pure, fail, on_db}
use go_web_service.Organization.Backend.{Backend}
use go_web_service.Organization.Entities.{SeedRow}
use go_web_service.Organization.Schema.{constraint_fault}
use go_web_service.Organization.Statements.{new_row, with_rows, find_seeded}
use go_web_service.Organization.Store.{raise_stored}

-- `ids[code]`
unfoldable pub seeded_id : String → List (String × String) → Option String
seeded_id code [] = none
seeded_id code ((k, id) ∷ ids) =
    let rest = seeded_id code ids in if k == code then some id else rest

module _ {Tree : Type 0} (b : Backend Tree) where
  -- seed.sql: a sibling that carries the code leaves no row, and any other fault is refused.
  unfoldable pub seed_statement : Option String → SeedRow → Tx (Database Tree) (Option String)
  seed_statement parent o db =
      let r = new_row b.mint b.now parent o.code o.name db in
      elim (constraint_fault db.organizations r) [
        | none ↦ ok (some r.id, with_rows db (db.organizations ++ r ∷ []))
        | some e ↦ if is e Sentinel.unique_violation then ok (none, db) else err e
      ]

  -- The row that the statement inserted, read back into its event, or the one already there.
  unfoldable pub found_seeded :
      Option String → SeedRow → Option String → Emitting (Database Tree) (String × Bool)
  found_seeded parent o (some id) d =
      (raise_stored b EventData.organization_created id >> pure (id, true)) d
  found_seeded parent o none d = elim (find_seeded parent o.code d.db.organizations) [
    | none ↦ err (Error.plain "neither inserted nor found")
    | some id ↦ ok ((id, false), d)
  ]

  unfoldable pub seed_body : Option String → SeedRow → Emitting (Database Tree) (String × Bool)
  seed_body parent o = on_db (seed_statement parent o) >>= found_seeded parent o

  unfoldable pub seed_one : Option String → SeedRow → Tx (Database Tree) (String × Bool)
  seed_one parent o = b.engine.emit (String × Bool) (seed_body parent o)

  -- The parent that the file names, seeded before the row.
  unfoldable pub seed_parent : List (String × String) → SeedRow → Result (Option String)
  seed_parent ids o = if o.parent == "" then ok none else elim (seeded_id o.parent ids) [
    | none ↦ err (wrap "seed organization" (Error.plain "the parent is not seeded before it"))
    | some id ↦ ok (some id)
  ]

  -- One turn of Apply's loop: the row's id, and whether it was inserted.
  unfoldable pub seed_row : List (String × String) → SeedRow → Tx (Database Tree) (String × Bool)
  seed_row ids o db = elim (seed_parent ids o) [
    | err e ↦ err e
    | ok parent ↦ elim (seeded_id o.code ids) [
      | some id ↦ err (wrap "seed organization" (Error.plain "the code is reused within the file"))
      | none ↦ elim (seed_one parent o db) [
        | err e ↦ err (wrap "seed organization" e)
        | ok found ↦ ok found
      ]
    ]
  ]

  abbrev pub counted : Bool → ℕ → ℕ
  counted true n = suc n
  counted false n = n

  -- seed.Apply, over the rows of the state file, with the ids and the count so far
  unfoldable pub apply : List (String × String) → ℕ → List SeedRow → Tx (Database Tree) ℕ
  apply ids n [] db = ok (n, db)
  apply ids n (o ∷ os) db = elim (seed_row ids o db) [
    | err e ↦ err e
    | ok ((id, inserted), db') ↦ apply ((o.code, id) ∷ ids) (counted inserted n) os db'
  ]
