-- ===== src/Organization/Seed/Growth.antt =====
-- The rows that a seed adds, and how many it counts.
use go_web_service.Prelude.{
  ℕ, ◌+◌, String, Bool, true, false, length, ◌≡◌, ap, ◌∙◌, subst, List, [], ◌∷◌, ◌++◌, arith,
  Option, none, some, Option-cases, Sentinel, ok, result_cases, inl, inr, is, Bool-cases,
}
use mathlib.Core.List.{append_assoc}
use go_web_service.Database.{Database}
use go_web_service.Database.Transactions.{Draft}
use go_web_service.Database.Transactions.Steps.{on_db-then-ok}
use go_web_service.Database.Engine.Commands.{recorded-ok}
use go_web_service.Organization.Backend.{Backend}
use go_web_service.Organization.Entities.{Organization, SeedRow}
use go_web_service.Organization.Schema.{constraint_fault, find_row}
use go_web_service.Organization.Statements.{new_row, find_seeded, stored}
use go_web_service.Organization.Store.{raise_stored}
use go_web_service.Organization.Seed.{
  seed_statement, found_seeded, seed_body, seed_one, seed_row, seed_parent, seeded_id, counted,
}

module _ {Tree : Type 0} (b : Backend Tree) where
  pub found-keeps :
      (parent : Option String) (o : SeedRow) (r : Option String) (d : Draft (Database Tree))
      {x : String × Bool} {d' : Draft (Database Tree)}
      → found_seeded b parent o r d ≡ ok (x, d')
      → d'.db.organizations ≡ d.db.organizations
  unfolding found_seeded raise_stored stored
  found-keeps parent o (some id) d h = elim (Option-cases (find_row id d.db.organizations)) [
    | inl absent ↦ absurd (ground arith)
    | inr (row, found) ↦ ground arith
  ]
  found-keeps parent o none d h =
      elim (Option-cases (find_seeded parent o.code d.db.organizations)) [
        | inl absent ↦ absurd (ground arith)
        | inr (id, found) ↦ ground arith
      ]

  -- The table with the rows that were added, below those it had.
  abbrev pub Adds : Bool → Database Tree → Database Tree → Type 0
  Adds true db db' = (row : Organization) × (db'.organizations ≡ db.organizations ++ row ∷ [])
  Adds false db db' = db'.organizations ≡ db.organizations

  abbrev was_inserted : Option String → Bool
  was_inserted none = false
  was_inserted (some id) = true

  statement-Adds :
      (parent : Option String) (o : SeedRow) (db : Database Tree) (r : Option String)
      {db' : Database Tree}
      → seed_statement b parent o db ≡ ok (r, db')
      → Adds (was_inserted r) db db'
  unfolding seed_statement new_row
  statement-Adds parent o db (some id) {db'} h =
      let row = new_row b.mint b.now parent o.code o.name db in
      elim (Option-cases (constraint_fault db.organizations row)) [
        | inl admitted ↦ (row, ground arith)
        | inr (e, fault) ↦ elim (Bool-cases (is e Sentinel.unique_violation)) [
          | inl there ↦ absurd (ground arith)
          | inr refused ↦ absurd (ground arith)
        ]
      ]
  statement-Adds parent o db none {db'} h =
      elim (Option-cases
        (constraint_fault db.organizations (new_row b.mint b.now parent o.code o.name db))) [
          | inl admitted ↦ absurd (ground arith)
          | inr (e, fault) ↦ elim (Bool-cases (is e Sentinel.unique_violation)) [
            | inl there ↦ ground arith
            | inr refused ↦ absurd (ground arith)
          ]
        ]

  found-inserted :
      (parent : Option String) (o : SeedRow) (r : Option String) (d : Draft (Database Tree))
      {x : String × Bool} {d' : Draft (Database Tree)}
      → found_seeded b parent o r d ≡ ok (x, d')
      → was_inserted r ≡ x.1
  unfolding found_seeded raise_stored stored
  found-inserted parent o (some id) d h = elim (Option-cases (find_row id d.db.organizations)) [
    | inl absent ↦ absurd (ground arith)
    | inr (row, found) ↦ ground arith
  ]
  found-inserted parent o none d h =
      elim (Option-cases (find_seeded parent o.code d.db.organizations)) [
        | inl absent ↦ absurd (ground arith)
        | inr (id, found) ↦ ground arith
      ]

  carry-Adds :
      (inserted : Bool) (x y db : Database Tree)
      → y.organizations ≡ x.organizations
      → Adds inserted db x
      → Adds inserted db y
  carry-Adds true x y db same (row, h) = (row, same ∙ h)
  carry-Adds false x y db same h = same ∙ h

  seed_one-Adds :
      (parent : Option String) (o : SeedRow) (db : Database Tree) {x : String × Bool}
      {db' : Database Tree}
      → seed_one b parent o db ≡ ok (x, db')
      → Adds x.1 db db'
  unfolding seed_one seed_body
  seed_one-Adds parent o db {x} {db'} h =
      let (d, ran, stands) =
        recorded-ok b.engine.publish_fault (seed_body b parent o (record { db = db; queue = [] }))
          (rw (b.engine.emit_lem (String × Bool) (seed_body b parent o) db) at h) in
      let (r, db1, wrote, rest) =
        on_db-then-ok (seed_statement b parent o) (record { db = db; queue = [] })
          (found_seeded b parent o) ran in
      let start : Draft (Database Tree) = record { db = db1; queue = [] } in
      carry-Adds x.1 db1 db' db
        (ap (λ (y : Database Tree). y.organizations) stands ∙ found-keeps parent o r start rest)
        (subst (λ i. Adds i db db1) (found-inserted parent o r start rest)
          (statement-Adds parent o db r wrote))

  pub seed_row-Adds :
      (ids : List (String × String)) (o : SeedRow) (db : Database Tree) {x : String × Bool}
      {db' : Database Tree}
      → seed_row b ids o db ≡ ok (x, db')
      → Adds x.1 db db'
  unfolding seed_row
  seed_row-Adds ids o db {x} {db'} h = elim (result_cases (seed_parent b ids o)) [
    | inr (e, refused) ↦ absurd (ground arith)
    | inl (parent, found) ↦ elim (Option-cases (seeded_id o.code ids)) [
      | inr (id, again) ↦ absurd (ground arith)
      | inl first ↦ elim (result_cases (seed_one b parent o db)) [
        | inr (e, failed) ↦ absurd (ground arith)
        | inl ((y, db1), done) ↦
            let same : (y, db1) ≡ (x, db') = ground arith in
            subst (λ (z : (String × Bool) × Database Tree). Adds z.0.1 db z.1) same
              (seed_one-Adds parent o db done)
      ]
    ]
  ]

  -- The rows that a seed added, and its count.
  abbrev pub HasGrown : ℕ → ℕ → Database Tree → Database Tree → Type 0
  HasGrown n m db db' =
      (rows : List Organization) × (db'.organizations ≡ db.organizations ++ rows)
      × (m ≡ n + length rows)

  pub grown :
      (inserted : Bool) (n m : ℕ) (db x y : Database Tree)
      → Adds inserted db x
      → HasGrown (counted b inserted n) m x y
      → HasGrown n m db y
  grown true n m db x y (row, one) (rows, more, count) = (
    row ∷ rows,
    more ∙ ap (λ l. l ++ rows) one ∙ append_assoc db.organizations (row ∷ []) rows,
    omega (arith, count),
  )
  grown false n m db x y same (rows, more, count) = (rows, more ∙ ap (λ l. l ++ rows) same, count)
