-- ===== src/Organization/Store/Refinement.antt =====
-- What the store's commands do to the registry of the rows under their ids.
use go_web_service.Prelude.{
  ℕ, ◌+◌, String, ◌≡◌, refl, sym, ap, ◌∙◌, subst, none, some, Option-cases, String-cases, List, [],
  ◌++◌, ◌∷◌, arith, inl, inr, Result, ok, err, Bool, true, false, is_ok,
}
use go_web_service.Database.{Database}
use go_web_service.Database.Engine.Commands.{command, command-err}
use go_web_service.Organization.Backend.{Backend}
use go_web_service.Organization.Entities.{
  Organization, CreateOrganization, EditOrganization, TransferOrganization, Identity,
}
use go_web_service.Organization.Schema.{find_row, remove_row, replace_row, is_parent}
use go_web_service.Organization.Schema.Rows.{
  find_row-append, find_row-remove, find_row-replace, any-find_row,
}
use go_web_service.Organization.Statements.{new_row}
use go_web_service.Organization.Store.{
  create, create_body, edit, edit_body, edited, transfer, transfer_body, transferred, delete,
  delete_body,
}
use go_web_service.Organization.Store.Effects.{create-ok}
use go_web_service.Organization.Store.Commands.{
  edit-ok, transfer-ok, delete-ok, edited-id, transferred-id,
}
use go_web_service.Organization.Store.Registry.{
  Registry, put, drop, Allowed, refused, created, edited_row, transferred_row, deleted, Steps, stay,
  next,
}
use go_web_service.Organization.Store.Invariant.{
  IsSound, Command, create_organization, edit_organization, transfer_organization,
  delete_organization, step, run, run-IsSound, identity-err, childless,
}

abbrev pub registry : {Tree : Type 0} → Database Tree → Registry
registry db id = find_row id db.organizations

append-put :
    (rows : List Organization) (r : Organization) (id : String)
    → find_row r.id rows ≡ none
    → find_row id (rows ++ r ∷ []) ≡ put r (λ j. find_row j rows) id
append-put rows r id absent = elim (String-cases r.id id) [
  | inl same ↦
      ground (arith, find_row-append id rows r, subst (λ x. find_row x rows ≡ none) same absent)
  | inr (other, test) ↦ elim (Option-cases (find_row id rows)) [
    | inl none_there ↦ rw (find_row-append id rows r, none_there, test)
    | inr (s, found) ↦ rw (find_row-append id rows r, test, found)
  ]
]

replace-put :
    (rows : List Organization) (r : Organization) {old : Organization} (id : String)
    → find_row r.id rows ≡ some old
    → find_row id (replace_row r rows) ≡ put r (λ j. find_row j rows) id
replace-put rows r {old} id found = elim (String-cases r.id id) [
  | inl same ↦
      rw (find_row-replace id r rows)
        (ground (arith, subst (λ x. find_row x rows ≡ some old) same found))
  | inr (other, test) ↦ rw (find_row-replace id r rows, test)
]

module _ {Tree : Type 0} (b : Backend Tree) where
  -- A registry that a command leaves, read off the rows it leaves.
  reads :
      (s : Registry) (c : Command) (db' : Database Tree) (rows : List Organization) (t : Registry)
      → db'.organizations ≡ rows
      → ((id : String) → find_row id rows ≡ t id)
      → Allowed s c true t
      → Allowed s c true (registry db')
  reads s c db' rows t same points allowed =
      subst (λ (u : Registry). Allowed s c true u)
        (sym (λ i id. (ap (λ x. find_row id x) same ∙ points id) i)) allowed

  kept :
      (c : Command) (db db' : Database Tree)
      → db' ≡ db
      → Allowed (registry db) c false (registry db')
  kept c db db' same =
      subst (λ (x : Database Tree). Allowed (registry db) c false (registry x)) (sym same) refused

  next_version :
      (row : Organization) (db : Database Tree) {v : ℕ}
      → row.version ≡ v
      → (b.guard.advance db row).version ≡ v + 1
  next_version row db at = b.guard.advance_version db row ∙ ap (λ n. n + 1) at

  create-Allowed :
      (c : CreateOrganization) (db : Database Tree) (r : Result Identity) (db' : Database Tree)
      → create b c db ≡ (r, db')
      → Allowed (registry db) (create_organization c) (is_ok r) (registry db')
  unfolding create new_row
  create-Allowed c db (err e) db' h =
      kept (create_organization c) db db' (command-err b.engine (create_body b c) db h)
  create-Allowed c db (ok ident) db' h =
      let (_, _, result) = create-ok b c db h in
      let new = new_row b.mint b.now c.parent_id c.code c.name db in
      reads (registry db) (create_organization c) db' (db.organizations ++ new ∷ [])
        (put new (registry db)) (ap (λ (x : Database Tree). x.organizations) result)
        (λ id. append-put db.organizations new id (b.mint_fresh db))
        (created c new (b.mint_fresh db) refl refl (refl, refl))

  edit-Allowed :
      (id : String) (v : ℕ) (e : EditOrganization) (db : Database Tree) (r : Result Identity)
      (db' : Database Tree)
      → IsSound b db
      → edit b id v e db ≡ (r, db')
      → Allowed (registry db) (edit_organization id v e) (is_ok r) (registry db')
  unfolding edit
  edit-Allowed id v e db (err x) db' t h = kept (edit_organization id v e) db db' (
      command-err b.engine (edit_body b id v e) db
        (identity-err b id (command b.engine (edit_body b id v e) db) h))
  edit-Allowed id v e db (ok ident) db' t h =
      let a = edit-ok b id v db e t.keys h in
      let row = a.changed.row in
      let r = edited b e db row in
      let found : find_row r.id db.organizations ≡ some row =
        subst (λ x. find_row x db.organizations ≡ some row)
          (sym (edited-id b e db row ∙ a.changed.guarded.row_id)) a.changed.guarded.found in
      reads (registry db) (edit_organization id v e) db' (replace_row r db.organizations)
        (put r (registry db)) (ap (λ (x : Database Tree). x.organizations) a.result)
        (λ j. replace-put db.organizations r j found)
        (edited_row id v e r row a.changed.guarded.found
          (edited-id b e db row ∙ a.changed.guarded.row_id)
          (a.changed.guarded.at_version, next_version row db a.changed.guarded.at_version)
          (b.guard.advance_parent_id db row) (refl, refl))

  transfer-Allowed :
      (id : String) (v : ℕ) (m : TransferOrganization) (db : Database Tree) (r : Result Identity)
      (db' : Database Tree)
      → IsSound b db
      → transfer b id v m db ≡ (r, db')
      → Allowed (registry db) (transfer_organization id v m) (is_ok r) (registry db')
  unfolding transfer
  transfer-Allowed id v m db (err x) db' t h = kept (transfer_organization id v m) db db' (
      command-err b.engine (transfer_body b id v m) db
        (identity-err b id (command b.engine (transfer_body b id v m) db) h))
  transfer-Allowed id v m db (ok ident) db' t h =
      let (_, a) = transfer-ok b id v db m t.keys h in
      let row = a.changed.row in
      let r = transferred b m db row in
      let found : find_row r.id db.organizations ≡ some row =
        subst (λ x. find_row x db.organizations ≡ some row)
          (sym (transferred-id b m db row ∙ a.changed.guarded.row_id)) a.changed.guarded.found in
      reads (registry db) (transfer_organization id v m) db' (replace_row r db.organizations)
        (put r (registry db)) (ap (λ (x : Database Tree). x.organizations) a.result)
        (λ j. replace-put db.organizations r j found)
        (transferred_row id v m r row a.changed.guarded.found
          (transferred-id b m db row ∙ a.changed.guarded.row_id)
          (a.changed.guarded.at_version, next_version row db a.changed.guarded.at_version) refl
          (b.guard.advance_code db row, b.guard.advance_name db row))

  delete-Allowed :
      (id : String) (v : ℕ) (db : Database Tree) (r : Result (Unit {0})) (db' : Database Tree)
      → IsSound b db
      → delete b id v db ≡ (r, db')
      → Allowed (registry db) (delete_organization id v) (is_ok r) (registry db')
  unfolding delete
  delete-Allowed id v db (err x) db' t h =
      kept (delete_organization id v) db db' (command-err b.engine (delete_body b id v) db h)
  delete-Allowed id v db (ok tt) db' t h =
      let a = delete-ok b id v db t.keys h in
      let no_child = childless b id db a.unreferenced in
      reads (registry db) (delete_organization id v) db' (remove_row id db.organizations)
        (drop id (registry db)) (ap (λ (x : Database Tree). x.organizations) a.result)
        (λ j. find_row-remove j id db.organizations)
        (deleted id v a.row a.guarded.found a.guarded.at_version (λ j c there.
          any-find_row (λ s. is_parent id s.parent_id) j db.organizations no_child there))

  -- Whether a command returns no error, and so for each of a sequence.
  abbrev pub succeeds : Command → Database Tree → Bool
  succeeds (create_organization c) db = is_ok (create b c db).0
  succeeds (edit_organization id v e) db = is_ok (edit b id v e db).0
  succeeds (transfer_organization id v m) db = is_ok (transfer b id v m db).0
  succeeds (delete_organization id v) db = is_ok (delete b id v db).0

  abbrev pub outcomes : List Command → Database Tree → List (Command × Bool)
  outcomes [] db = []
  outcomes (c ∷ cs) db = (c, succeeds c db) ∷ outcomes cs (step b c db)

  step-Allowed :
      (c : Command) (db : Database Tree)
      → IsSound b db
      → Allowed (registry db) c (succeeds c db) (registry (step b c db))
  step-Allowed (create_organization c) db t = create-Allowed c db _ _ refl
  step-Allowed (edit_organization id v e) db t = edit-Allowed id v e db _ _ t refl
  step-Allowed (transfer_organization id v m) db t = transfer-Allowed id v m db _ _ t refl
  step-Allowed (delete_organization id v) db t = delete-Allowed id v db _ _ t refl

  -- The commands implement the registry: from a sound table, each of a sequence of them is one step of
  -- the registry, in the sequence's order. One that returns an error keeps the registry. Any other makes
  -- the command's own change, with what it was given: a row at version 1 under an id that none has, the
  -- row under its id and at its version replaced at the next one, or that row, no row's parent, taken
  -- out.
  pub run-Steps :
      (cs : List Command) (db : Database Tree)
      → IsSound b db
      → Steps (outcomes cs db) (registry db) (registry (run b cs db))
  run-Steps [] db t = stay
  run-Steps (c ∷ cs) db t =
      next (step-Allowed c db t) (run-Steps cs (step b c db) (run-IsSound b (c ∷ []) db t))
