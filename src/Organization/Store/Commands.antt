-- ===== src/Organization/Store/Commands.antt =====
-- The guarded commands whole: an edit, a transfer and a delete.
use go_web_service.Prelude.{
  ℕ, suc, ◌+◌, String, ◌≡◌, refl, false, sym, ap, ◌∙◌, subst, Option, none, some, List, [], ◌∷◌,
  ◌++◌, arith, ◌⊎◌, inl, inr, Result, ok, err,
}
use go_web_service.Database.{Database}
use go_web_service.Database.Events.{EventData, Event}
use go_web_service.Database.Transactions.{
  Draft, Emitting, ◌>>◌, >>=-eq-ok, change_then, on_db, on_db-eq-ok, raise,
}
use go_web_service.Database.Engine.{published}
use go_web_service.Database.Engine.Commands.{command, command-ok}
use go_web_service.Organization.Backend.{Backend}
use go_web_service.Organization.Entities.{
  Organization, EditOrganization, TransferOrganization, Identity, OrganizationData,
}
use go_web_service.Organization.Schema.{remove_row, replace_row}
use go_web_service.Organization.Statements.{data_of, with_rows, version, in_subtree, is_referenced}
use go_web_service.Organization.Statements.Outcomes.{delete_row-ok, run-ok, IsDeleted}
use go_web_service.Organization.Store.{
  raise_stored, identity, edited, edit_statement, edit_body, edit, transferred, transfer_statement,
  transfer_body, transfer, delete_statement, delete_body, delete, refuse_cycle,
}
use go_web_service.Organization.Store.Effects.{event, after}
use go_web_service.Organization.Store.Guarded.{
  IsGuarded, IsChanged, IsChanged-then, matched-IsGuarded,
}
use go_web_service.Organization.Table.{HasKeys}

draft-eq :
    {Db : Type 0} {d : Draft Db} {db : Db} {queue : List Event}
    → d.db ≡ db
    → d.queue ≡ queue
    → d ≡ record { db = db; queue = queue }
draft-eq h k = λ i. record { db = h i; queue = k i }

drafted-eq :
    {S : Type 0} {x d : S} → ◌≡◌ {A = Result (Unit {0} × S)} (ok (tt, x)) (ok (tt, d)) → x ≡ d
drafted-eq h = ground arith

-- One event raised on an empty queue is the one that is published.
raised-published :
    {Tree : Type 0} (id : String) (body : EventData) (d1 : Draft (Database Tree))
    {d : Draft (Database Tree)}
    → d1.queue ≡ []
    → raise id body d1 ≡ ok (tt, d)
    → let db1 = d1.db in published d ≡ record db1 { outbox = db1.outbox ++ event id body ∷ [] }
raised-published id body d1 empty h =
    sym (ap published (drafted-eq h))
    ∙ ap (λ q. let db1 = d1.db in record db1 { outbox = db1.outbox ++ (q ++ event id body ∷ []) })
        empty

identity-ok :
    {S : Type 0} (id : String) (x : Result ℕ × S) {ident : Identity} {s : S}
    → ◌≡◌ {A = Result Identity × S} (identity id x.0, x.1) (ok ident, s)
    → (w : ℕ) × (x ≡ (ok w, s)) × (ident ≡ record { id = id; version = w })
identity-ok id (ok w, s') h = (w, ground arith, ground arith)
identity-ok id (err e, s') h = absurd (ground arith)

module _ {Tree : Type 0} (b : Backend Tree) where
  pub edited-id :
      (e : EditOrganization) (db : Database Tree) (r : Organization) → (edited b e db r).id ≡ r.id
  edited-id e db r = b.guard.advance_id db r

  pub transferred-id :
      (t : TransferOrganization) (db : Database Tree) (r : Organization)
      → (transferred b t db r).id ≡ r.id
  transferred-id t db r = b.guard.advance_id db r

  module _ (id : String) (v : ℕ) (db : Database Tree) where
    -- What a guarded command that changed one row left: the row's change, the version it answers,
    -- and the event with the changed row.
    pub record IsApplied (change : Organization → Organization)
        (keeps : (r : Organization) → (change r).id ≡ r.id) (kind : OrganizationData → EventData)
        (ident : Identity) (db' : Database Tree) : Type 0 where
      pub w : ℕ
      pub db1 : Database Tree
      pub changed : IsChanged b id v db change keeps w db1
      pub answer : ident ≡ record { id = id; version = v + 1 }
      pub result :
          db'
          ≡ after db
              (replace_row (change changed.row) db.organizations)
              (event id (kind (data_of (change changed.row))))

    -- An edit that returns changed the one row under its id, which stood at the guard's version, and
    -- emitted one event with the row as it left it.
    pub edit-ok :
        (e : EditOrganization)
        → HasKeys db.organizations
        → {ident : Identity} {db' : Database Tree} → edit b id v e db ≡ (ok ident, db')
        → IsApplied (edited b e db) (edited-id e db) EventData.organization_edited ident db'
    unfolding edit edit_body
    edit-ok e keys {db' = db'} h =
        let (w, done, answer) = identity-ok id (command b.engine (edit_body b id v e) db) h in
        let (d, ran, stands) = command-ok b.engine (edit_body b id v e) db done in
        let (db1, c, result) =
          IsChanged-then b id v db (edited b e db) (edited-id e db) (edit_statement b id v e)
            EventData.organization_edited refl keys db' ran stands in
        record {
          w = w;
          db1 = db1;
          changed = c;
          answer = answer ∙ ap (λ x. record { id = id; version = x }) c.advanced;
          result = result;
        }

    -- The new parent is none, or one whose chain the walk found free of the organization.
    abbrev pub IsOutside : Option String → Type 0
    IsOutside none = Unit
    IsOutside (some p) = in_subtree id p db.organizations ≡ some 0

    refuse_cycle-ok :
        (p : Option String) {d : Draft (Database Tree)}
        → refuse_cycle b id p (record { db = db; queue = [] }) ≡ ok (tt, d)
        → IsOutside p × (d ≡ record { db = db; queue = [] })
    unfolding refuse_cycle
    refuse_cycle-ok none h = (tt, ground arith)
    refuse_cycle-ok (some p) h = ground arith

    -- A transfer that returns moved the one row under its id, which stood at the guard's version,
    -- under the new parent, outside whose chain it stands, and emitted one event with the moved row.
    pub transfer-ok :
        (t : TransferOrganization)
        → HasKeys db.organizations
        → {ident : Identity} {db' : Database Tree} → transfer b id v t db ≡ (ok ident, db')
        → IsOutside t.parent_id
          × IsApplied
              (transferred b t db)
              (transferred-id t db)
              EventData.organization_transferred
              ident
              db'
    unfolding transfer transfer_body
    transfer-ok t keys {db' = db'} h =
        let (w, done, answer) = identity-ok id (command b.engine (transfer_body b id v t) db) h in
        let (d, ran, stands) = command-ok b.engine (transfer_body b id v t) db done in
        let start : Draft (Database Tree) = record { db = db; queue = [] } in
        let rest : Emitting (Database Tree) ℕ =
          change_then (b.guard.run (transfer_statement b id v t) (version id) v)
            (λ _. raise_stored b EventData.organization_transferred id) (λ x. x) in
        let (_, d1, locked, walk) =
          >>=-eq-ok (on_db b.lock) (λ _. refuse_cycle b id t.parent_id >> rest) start ran in
        let (held, queue) = on_db-eq-ok b.lock start locked in
        let held_db : d1.db ≡ db = b.lock_lem held in
        let same : d1 ≡ start = draft-eq held_db queue in
        let (_, d2, free, write) =
          >>=-eq-ok (refuse_cycle b id t.parent_id) (λ _. rest) start
            (subst (λ x. (refuse_cycle b id t.parent_id >> rest) x ≡ ok (w, d)) same walk) in
        let (outside, kept) = refuse_cycle-ok t.parent_id free in
        let (db1, c, result) =
          IsChanged-then b id v db (transferred b t db) (transferred-id t db)
            (transfer_statement b id v t) EventData.organization_transferred refl keys db'
            (subst (λ x. rest x ≡ ok (w, d)) kept write) stands in
        (
          outside,
          record {
            w = w;
            db1 = db1;
            changed = c;
            answer = answer ∙ ap (λ x. record { id = id; version = x }) c.advanced;
            result = result;
          },
        )

    -- What a delete left: the row is gone, at the version that the guard found it at, no key
    -- referred to it, and its event carries that version.
    pub record IsRemoved (db' : Database Tree) : Type 0 where
      pub row : Organization
      pub guarded : IsGuarded id v db row
      pub unreferenced : is_referenced id db ≡ false
      pub result :
          db'
          ≡ after db (remove_row id db.organizations) (
              event id
                (EventData.organization_deleted (record { organization_id = id; version = v })))

    delete_row-IsRemoved :
        {n : ℕ} {db1 db' : Database Tree}
        → ((suc n ≡ 0) × (db1 ≡ db)) ⊎ IsDeleted (b.guard.matches id v) db (suc n) db1
        → db' ≡ record db1 {
          outbox =
              db1.outbox
              ++ event id
                  (EventData.organization_deleted (record { organization_id = id; version = v }))
                ∷ [];
        }
        → IsRemoved db'
    delete_row-IsRemoved (inl (none_removed, _)) stands = absurd (omega arith)
    delete_row-IsRemoved (inr u) stands =
        let g = matched-IsGuarded b id v db u.row u.matched u.found in
        record {
          row = u.row;
          guarded = g;
          unreferenced = subst (λ x. is_referenced x db ≡ false) g.row_id u.unreferenced;
          result =
              stands
              ∙ ap
                  (λ (x : Database Tree). record x {
                    outbox =
                        x.outbox
                        ++ event id (
                            EventData.organization_deleted
                              (record { organization_id = id; version = v }))
                          ∷ [];
                  })
                  (u.result ∙ ap (λ x. with_rows db (remove_row x db.organizations)) g.row_id);
        }

    -- A delete that returns removed the one row under its id, which stood at the guard's version and
    -- which no key referred to, and emitted one event with the id and that version.
    pub delete-ok :
        HasKeys db.organizations
        → {db' : Database Tree} → delete b id v db ≡ (ok tt, db')
        → IsRemoved db'
    unfolding delete delete_body
    delete-ok keys {db' = db'} h =
        let (d, ran, stands) = command-ok b.engine (delete_body b id v) db h in
        let start : Draft (Database Tree) = record { db = db; queue = [] } in
        let (w, d1, removed, raised) =
          >>=-eq-ok (on_db (b.guard.run (delete_statement b id v) (version id) v))
            (λ _.
              raise id
                (EventData.organization_deleted (record { organization_id = id; version = v })))
            start ran in
        let (wrote, queue) =
          on_db-eq-ok (b.guard.run (delete_statement b id v) (version id) v) start removed in
        let (n, deleted, _) = run-ok b.guard (delete_statement b id v) (version id) v db wrote in
        delete_row-IsRemoved (delete_row-ok (b.guard.matches id v) db db.organizations keys deleted)
          (stands
            ∙ raised-published id
                (EventData.organization_deleted (record { organization_id = id; version = v })) d1
                queue raised)
