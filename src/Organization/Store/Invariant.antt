-- ===== src/Organization/Store/Invariant.antt =====
-- Every command, and so every sequence of commands, keeps the table: the organization tree stays a
-- forest, whatever the commands return.
use go_web_service.Prelude.{
  ℕ, suc, String, ◌≡◌, refl, true, false, sym, ◌∙◌, subst, none, some, List, [], ◌∷◌, arith, inl,
  inr, Result, ok, err, Error, Option-cases, String-cases, eq_iff, any,
}
use go_web_service.Database.{Database}
use go_web_service.Database.Engine.Commands.{command, command-err}
use go_web_service.Organization.Backend.{Backend}
use go_web_service.Organization.Entities.{
  Organization, CreateOrganization, EditOrganization, TransferOrganization, Identity,
}
use go_web_service.Organization.Schema.{
  find_row, remove_row, replace_row, constraint_fault, parent_exists, is_parent,
}
use go_web_service.Organization.Schema.Rows.{find_row-replace}
use go_web_service.Organization.Statements.{new_row, is_referenced}
use go_web_service.Organization.Forest.{Rooted, top, under}
use go_web_service.Organization.Forest.Walk.{in_subtree-ends}
use go_web_service.Organization.Forest.Updates.{Rooted-keep, Rooted-avoid, KeepsParents, AgreeOff}
use go_web_service.Organization.Table.{IsTable}
use go_web_service.Organization.Table.Preserve.{
  IsTable-append, IsTable-replace, IsTable-remove, constraint_fault-IsAdmitted, remove-found,
}
use go_web_service.Organization.Store.{
  create, create_body, edit, edit_body, edited, transfer, transfer_body, transferred, delete,
  delete_body, identity,
}
use go_web_service.Organization.Store.Effects.{create-ok}
use go_web_service.Organization.Store.Commands.{
  IsOutside, edit-ok, transfer-ok, delete-ok, edited-id, transferred-id,
}

replace-KeepsParents :
    (rows : List Organization) (r row : Organization)
    → find_row r.id rows ≡ some row
    → r.parent_id ≡ row.parent_id
    → KeepsParents rows (replace_row r rows)
replace-KeepsParents rows r row found same j s h = elim (String-cases r.id j) [
  | inl at ↦ (r, ground (arith, find_row-replace j r rows, eq_iff r.id j), ground arith)
  | inr (_, other) ↦ (s, rw find_row-replace (rw other h), refl)
]

replace-AgreeOff :
    (rows : List Organization) (r : Organization) (id : String)
    → r.id ≡ id
    → AgreeOff id rows (replace_row r rows)
replace-AgreeOff rows r id at j other =
    ground (arith, find_row-replace j r rows, eq_iff r.id j, eq_iff id j)

parent-found :
    (rows : List Organization) (p : String)
    → parent_exists rows (some p) ≡ true
    → (s : Organization) × (find_row p rows ≡ some s)
unfolding parent_exists
parent-found rows p h = elim (Option-cases (find_row p rows)) [
  | inl missing ↦ absurd (ground arith)
  | inr found ↦ found
]

count-injective : {k m : ℕ} → some k ≡ some m → k ≡ m
count-injective h = ground arith

module _ {Tree : Type 0} (b : Backend Tree) where
  abbrev pub IsSound : Database Tree → Type 0
  IsSound db = IsTable db.organizations

  create-IsSound :
      (c : CreateOrganization) (db : Database Tree) (r : Result Identity) (db' : Database Tree)
      → IsSound db
      → create b c db ≡ (r, db')
      → IsSound db'
  unfolding create new_row
  create-IsSound c db (ok ident) db' t h =
      let (admitted, _, result) = create-ok b c db h in
      subst (λ (x : Database Tree). IsTable x.organizations) (sym result)
        (IsTable-append db.organizations (new_row b.mint b.now c.parent_id c.code c.name db) t
          (b.mint_fresh db) admitted)
  create-IsSound c db (err e) db' t h =
      subst (λ (x : Database Tree). IsTable x.organizations)
        (sym (command-err b.engine (create_body b c) db h)) t

  pub identity-err :
      {S : Type 0} (id : String) (x : Result ℕ × S) {e : Error} {s : S}
      → ◌≡◌ {A = Result Identity × S} (identity id x.0, x.1) (err e, s)
      → x ≡ (err e, s)
  identity-err id (ok w, s') h = absurd (ground arith)
  identity-err id (err e, s') h = ground arith

  module _ (id : String) (db : Database Tree) (t : IsSound db) where
    -- A row changed in place, with its parent, has its chain.
    same_parent-Rooted :
        (row r : Organization)
        → find_row id db.organizations ≡ some row
        → r.id ≡ id
        → r.parent_id ≡ row.parent_id
        → (n : ℕ) × Rooted (replace_row r db.organizations) n id
    same_parent-Rooted row r found at same =
        let (n, c) = t.forest id row found in
        (
          n,
          Rooted-keep
              (replace-KeepsParents db.organizations r row
                (subst (λ x. find_row x db.organizations ≡ some row) (sym at) found) same)
              c,
        )

    -- A row moved to a root, or under a parent outside its subtree, has a chain.
    moved-Rooted :
        (v : ℕ) (r : Organization)
        → find_row id (replace_row r db.organizations) ≡ some r
        → r.id ≡ id
        → IsOutside b id v db r.parent_id
        → parent_exists (remove_row id db.organizations) r.parent_id ≡ true
        → (n : ℕ) × Rooted (replace_row r db.organizations) n id
    moved-Rooted v r there at outside parent = elim (Option-cases r.parent_id) [
      | inl e ↦ (1, top r there e)
      | inr (p, e) ↦
          let (s, found) =
            parent-found (remove_row id db.organizations) p
              (subst (λ x. parent_exists (remove_row id db.organizations) x ≡ true) e parent) in
          let (n, c) = t.forest p s (remove-found db.organizations id p found) in
          let (k, counted, avoids) = in_subtree-ends id p c in
          (
            suc n,
            under r p there e (
                Rooted-avoid id (replace-AgreeOff db.organizations r id at) c (
                  avoids.0 (
                    count-injective (sym counted ∙ subst (λ x. IsOutside b id v db x) e outside)))),
          )
    ]

  edit-IsSound :
      (id : String) (v : ℕ) (e : EditOrganization) (db : Database Tree) (r : Result Identity)
      (db' : Database Tree)
      → IsSound db
      → edit b id v e db ≡ (r, db')
      → IsSound db'
  unfolding edit
  edit-IsSound id v e db (ok ident) db' t h =
      let a = edit-ok b id v db e t.keys h in
      let row = a.changed.row in
      let r = edited b e db row in
      let at : r.id ≡ id = edited-id b e db row ∙ a.changed.guarded.row_id in
      let (n, c) =
        same_parent-Rooted id db t row r a.changed.guarded.found at
          (b.guard.advance_parent_id db row) in
      subst (λ (x : Database Tree). IsTable x.organizations) (sym a.result)
        (IsTable-replace db.organizations r n t
          (subst (λ x. constraint_fault (remove_row x db.organizations) r ≡ none) (sym at)
            a.changed.admitted)
          (subst (λ x. Rooted (replace_row r db.organizations) n x) (sym at) c))
  edit-IsSound id v e db (err x) db' t h =
      subst (λ (y : Database Tree). IsTable y.organizations)
        (sym (
          command-err b.engine (edit_body b id v e) db
            (identity-err id (command b.engine (edit_body b id v e) db) h)))
        t

  transfer-IsSound :
      (id : String) (v : ℕ) (m : TransferOrganization) (db : Database Tree) (r : Result Identity)
      (db' : Database Tree)
      → IsSound db
      → transfer b id v m db ≡ (r, db')
      → IsSound db'
  unfolding transfer
  transfer-IsSound id v m db (ok ident) db' t h =
      let (outside, a) = transfer-ok b id v db m t.keys h in
      let row = a.changed.row in
      let r = transferred b m db row in
      let at : r.id ≡ id = transferred-id b m db row ∙ a.changed.guarded.row_id in
      let ad = constraint_fault-IsAdmitted (remove_row id db.organizations) r a.changed.admitted in
      let (n, c) = moved-Rooted id db t v r a.changed.there at outside ad.parent in
      subst (λ (x : Database Tree). IsTable x.organizations) (sym a.result)
        (IsTable-replace db.organizations r n t
          (subst (λ x. constraint_fault (remove_row x db.organizations) r ≡ none) (sym at)
            a.changed.admitted)
          (subst (λ x. Rooted (replace_row r db.organizations) n x) (sym at) c))
  transfer-IsSound id v m db (err x) db' t h =
      subst (λ (y : Database Tree). IsTable y.organizations)
        (sym (
          command-err b.engine (transfer_body b id v m) db
            (identity-err id (command b.engine (transfer_body b id v m) db) h)))
        t

  pub childless :
      (id : String) (db : Database Tree)
      → is_referenced id db ≡ false
      → any (λ s. is_parent id s.parent_id) db.organizations ≡ false
  unfolding is_referenced
  childless id db h = ground arith

  delete-IsSound :
      (id : String) (v : ℕ) (db : Database Tree) (r : Result (Unit {0})) (db' : Database Tree)
      → IsSound db
      → delete b id v db ≡ (r, db')
      → IsSound db'
  unfolding delete
  delete-IsSound id v db (ok tt) db' t h =
      let a = delete-ok b id v db t.keys h in
      subst (λ (x : Database Tree). IsTable x.organizations) (sym a.result)
        (IsTable-remove db.organizations id t (childless id db a.unreferenced))
  delete-IsSound id v db (err x) db' t h =
      subst (λ (y : Database Tree). IsTable y.organizations)
        (sym (command-err b.engine (delete_body b id v) db h)) t

-- The commands as a client sends them; the order is that in which their transactions commit.
pub data Command : Type 0 where
  create_organization : CreateOrganization → Command
  edit_organization : String → ℕ → EditOrganization → Command
  transfer_organization : String → ℕ → TransferOrganization → Command
  delete_organization : String → ℕ → Command

module _ {Tree : Type 0} (b : Backend Tree) where
  -- The database after a command, whatever it returned.
  abbrev pub step : Command → Database Tree → Database Tree
  step (create_organization c) db = (create b c db).1
  step (edit_organization id v e) db = (edit b id v e db).1
  step (transfer_organization id v t) db = (transfer b id v t db).1
  step (delete_organization id v) db = (delete b id v db).1

  abbrev pub run : List Command → Database Tree → Database Tree
  run [] db = db
  run (c ∷ cs) db = run cs (step c db)

  step-IsSound : (c : Command) (db : Database Tree) → IsSound b db → IsSound b (step c db)
  step-IsSound (create_organization c) db t = create-IsSound b c db _ _ t refl
  step-IsSound (edit_organization id v e) db t = edit-IsSound b id v e db _ _ t refl
  step-IsSound (transfer_organization id v m) db t = transfer-IsSound b id v m db _ _ t refl
  step-IsSound (delete_organization id v) db t = delete-IsSound b id v db _ _ t refl

  -- From a sound table, any sequence of commands, refused ones among them, leaves a sound table: its
  -- ids are keys, its codes and names pass their checks, no two siblings share a code, and every
  -- organization reaches a root through its parents, so a transfer never makes a cycle.
  pub run-IsSound : (cs : List Command) (db : Database Tree) → IsSound b db → IsSound b (run cs db)
  run-IsSound [] db t = t
  run-IsSound (c ∷ cs) db t = run-IsSound cs (step c db) (step-IsSound c db t)
