-- ===== src/Organization/Seed/Invariant.antt =====
-- A seed keeps the organization table, whatever the state file holds.
use go_web_service.Prelude.{
  ℕ, String, Bool, ◌≡◌, sym, ap, ◌∙◌, subst, List, [], ◌∷◌, ◌++◌, arith, Option, Option-cases,
  Sentinel, ok, result_cases, inl, inr, is, Bool-cases,
}
use mathlib.Core.List.{append-nil}
use go_web_service.Database.{Database}
use go_web_service.Database.Transactions.Steps.{on_db-then-ok}
use go_web_service.Database.Engine.Commands.{recorded-ok}
use go_web_service.Organization.Backend.{Backend}
use go_web_service.Organization.Entities.{SeedRow}
use go_web_service.Organization.Schema.{constraint_fault}
use go_web_service.Organization.Statements.{new_row, with_rows}
use go_web_service.Organization.Store.Invariant.{IsSound}
use go_web_service.Organization.Table.{IsTable}
use go_web_service.Organization.Table.Preserve.{IsTable-append}
use go_web_service.Organization.Seed.Growth.{HasGrown, found-keeps, seed_row-Adds, grown}
use go_web_service.Organization.Seed.{
  seed_statement, found_seeded, seed_body, seed_one, seed_row, seed_parent, seeded_id, apply,
  counted,
}

module _ {Tree : Type 0} (b : Backend Tree) where
  carry : (x y : Database Tree) → y ≡ x → IsSound b x → IsSound b y
  carry x y same t = subst (λ (z : Database Tree). IsTable z.organizations) (sym same) t

  statement-IsSound :
      (parent : Option String) (o : SeedRow) (db : Database Tree) {r : Option String}
      {db' : Database Tree}
      → IsSound b db
      → seed_statement b parent o db ≡ ok (r, db')
      → IsSound b db'
  unfolding seed_statement new_row
  statement-IsSound parent o db {db'} t h =
      let row = new_row b.mint b.now parent o.code o.name db in
      elim (Option-cases (constraint_fault db.organizations row)) [
        | inl admitted ↦
            carry (with_rows db (db.organizations ++ row ∷ [])) db' (ground arith)
              (IsTable-append db.organizations row t (b.mint_fresh db) admitted)
        | inr (e, fault) ↦ elim (Bool-cases (is e Sentinel.unique_violation)) [
          | inl there ↦ carry db db' (ground arith) t
          | inr refused ↦ absurd (ground arith)
        ]
      ]

  seed_one-IsSound :
      (parent : Option String) (o : SeedRow) (db : Database Tree) {x : String × Bool}
      {db' : Database Tree}
      → IsSound b db
      → seed_one b parent o db ≡ ok (x, db')
      → IsSound b db'
  unfolding seed_one seed_body
  seed_one-IsSound parent o db {db'} t h =
      let (d, ran, stands) =
        recorded-ok b.engine.publish_fault (seed_body b parent o (record { db = db; queue = [] }))
          (rw (b.engine.emit_lem (String × Bool) (seed_body b parent o) db) at h) in
      let (r, db1, wrote, rest) =
        on_db-then-ok (seed_statement b parent o) (record { db = db; queue = [] })
          (found_seeded b parent o) ran in
      subst IsTable
        (sym (found-keeps b parent o r (record { db = db1; queue = [] }) rest)
          ∙ sym (ap (λ (x : Database Tree). x.organizations) stands))
        (statement-IsSound parent o db t wrote)

  seed_row-IsSound :
      (ids : List (String × String)) (o : SeedRow) (db : Database Tree) {x : String × Bool}
      {db' : Database Tree}
      → IsSound b db
      → seed_row b ids o db ≡ ok (x, db')
      → IsSound b db'
  unfolding seed_row
  seed_row-IsSound ids o db {db'} t h = elim (result_cases (seed_parent b ids o)) [
    | inr (e, refused) ↦ absurd (ground arith)
    | inl (parent, found) ↦ elim (Option-cases (seeded_id o.code ids)) [
      | inr (id, again) ↦ absurd (ground arith)
      | inl first ↦ elim (result_cases (seed_one b parent o db)) [
        | inr (e, failed) ↦ absurd (ground arith)
        | inl ((x, db1), done) ↦ carry db1 db' (ground arith) (seed_one-IsSound parent o db t done)
      ]
    ]
  ]

  -- From a sound table, a seed that returns leaves a sound one, whatever rows the state file holds: the
  -- rows it had, unchanged and in their order, and as many more as the seed counts.
  pub apply-IsSound :
      (ids : List (String × String)) (n : ℕ) (os : List SeedRow) (db : Database Tree) {m : ℕ}
      {db' : Database Tree}
      → IsSound b db
      → apply b ids n os db ≡ ok (m, db')
      → IsSound b db' × HasGrown b n m db db'
  unfolding apply
  apply-IsSound ids n [] db {m} {db'} t h = (
    carry db db' (ground arith) t,
    ([], ground (arith, append-nil db.organizations), ground arith),
  )
  apply-IsSound ids n (o ∷ os) db {m} {db'} t h = elim (result_cases (seed_row b ids o db)) [
    | inr (e, failed) ↦ absurd (ground arith)
    | inl (((id, inserted), db1), done) ↦
        let (sound, more) =
          apply-IsSound ((o.code, id) ∷ ids) (counted b inserted n) os db1 {m = m} {db' = db'}
            (seed_row-IsSound ids o db t done) (ground arith) in
        (sound, grown b inserted n m db db1 db' (seed_row-Adds b ids o db done) more)
  ]
