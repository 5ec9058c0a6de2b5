-- ===== src/Organization/Store/Guarded.antt =====
-- The guarded commands: what an edit, a transfer and a delete that return leave.
use go_web_service.Prelude.{
  ℕ, suc, ◌+◌, String, ◌≡◌, sym, ◌∙◌, subst, true, ◌&&◌, ◌=ℕ=◌, ◌==◌, eq_iff, none, some, [], arith,
  ◌⊎◌, inl, inr, ok,
}
use go_web_service.Database.{Database}
use go_web_service.Database.Events.{EventData}
use go_web_service.Database.Transactions.{Draft, Tx, change_then, change_then-ok}
use go_web_service.Database.Engine.{published}
use go_web_service.Organization.Backend.{Backend}
use go_web_service.Organization.Entities.{Organization, OrganizationData}
use go_web_service.Organization.Schema.{find_row, remove_row, replace_row, constraint_fault}
use go_web_service.Organization.Schema.Rows.{find_row-replace}
use go_web_service.Organization.Statements.{data_of, with_rows, version, update_row}
use go_web_service.Organization.Statements.Outcomes.{update_row-ok, run-ok, IsUpdated}
use go_web_service.Organization.Store.{raise_stored}
use go_web_service.Organization.Store.Effects.{raise_stored-ok, published-after, event, after}
use go_web_service.Organization.Table.{HasKeys}

-- The row that a guarded command at a version found: the id's, at that version.
pub record IsGuarded {Tree : Type 0} (id : String) (v : ℕ) (db : Database Tree) (row : Organization)
    : Type 0 where
  pub found : find_row id db.organizations ≡ some row
  pub row_id : row.id ≡ id
  pub at_version : row.version ≡ v

module _ {Tree : Type 0} (b : Backend Tree) (id : String) (v : ℕ) (db : Database Tree) where
  pub matched-IsGuarded :
      (row : Organization)
      → b.guard.matches id v row ≡ true
      → find_row row.id db.organizations ≡ some row
      → IsGuarded id v db row
  matched-IsGuarded row matched found =
      let m : (row.id == id && row.version =ℕ= v) ≡ true =
        sym (b.guard.matches_lem id v row) ∙ matched in
      record {
        found =
            subst (λ x. find_row x db.organizations ≡ some row)
              ((eq_iff row.id id).0 (ground arith)) found;
        row_id = (eq_iff row.id id).0 (ground arith);
        at_version = ground arith;
      }

  module _ (change : Organization → Organization)
      (keeps : (r : Organization) → (change r).id ≡ r.id) where
    -- What a guarded update that succeeds wrote.
    pub record IsChanged (w : ℕ) (db1 : Database Tree) : Type 0 where
      pub row : Organization
      pub guarded : IsGuarded id v db row
      pub admitted : constraint_fault (remove_row id db.organizations) (change row) ≡ none
      pub advanced : w ≡ v + 1
      pub result : db1 ≡ with_rows db (replace_row (change row) db.organizations)
      pub there : find_row id (replace_row (change row) db.organizations) ≡ some (change row)

    updated-IsChanged :
        {n w : ℕ} {db1 : Database Tree}
        → w ≡ v + 1
        → ((suc n ≡ 0) × (db1 ≡ db)) ⊎ IsUpdated (b.guard.matches id v) change db (suc n) db1
        → IsChanged w db1
    updated-IsChanged adv (inl (none_changed, _)) = absurd (omega arith)
    updated-IsChanged {db1 = db1} adv (inr u) =
        let g = matched-IsGuarded u.row u.matched u.found in
        let same : u.row.id ≡ id = g.row_id in
        record {
          row = u.row;
          guarded = g;
          admitted =
              subst (λ x. constraint_fault (remove_row x db.organizations) (change u.row) ≡ none)
                same u.admitted;
          advanced = adv;
          result = u.result;
          there = ground (
            arith,
            find_row-replace id (change u.row) db.organizations,
            keeps u.row,
            eq_iff (change u.row).id id,
            g.found,
          );
        }

    pub run-IsChanged :
        (statement : Tx (Database Tree) ℕ)
        → statement db ≡ update_row (b.guard.matches id v) change db.organizations db
        → HasKeys db.organizations
        → {w : ℕ} {db1 : Database Tree} → b.guard.run statement (version id) v db ≡ ok (w, db1)
        → IsChanged w db1
    run-IsChanged statement is_update keys ran =
        let (n, changed, adv) = run-ok b.guard statement (version id) v db ran in
        updated-IsChanged adv (
          update_row-ok (b.guard.matches id v) change db db.organizations keys
            (sym is_update ∙ changed))

    -- The guarded update followed by its event, from a fresh queue.
    pub IsChanged-then :
        (statement : Tx (Database Tree) ℕ) (kind : OrganizationData → EventData)
        → statement db ≡ update_row (b.guard.matches id v) change db.organizations db
        → HasKeys db.organizations
        → {w : ℕ} {d : Draft (Database Tree)} (db' : Database Tree)
        → change_then
            (b.guard.run statement (version id) v)
            (λ _. raise_stored b kind id)
            (λ x. x)
            (record { db = db; queue = [] })
          ≡ ok (w, d)
        → db' ≡ published d
        → (db1 : Database Tree) × (c : IsChanged w db1) × (db'
            ≡ after db
                (replace_row (change c.row) db.organizations)
                (event id (kind (data_of (change c.row)))))
    IsChanged-then statement kind is_update keys {w} {d} db' ran stands =
        let (x, db1, changed, raised, value) =
          change_then-ok (λ _. raise_stored b kind id) (λ x. x)
            (b.guard.run statement (version id) v) (record { db = db; queue = [] }) ran in
        let c = run-IsChanged statement is_update keys (
          subst (λ y. b.guard.run statement (version id) v db ≡ ok (y, db1)) (sym value) changed) in
        let (r, found, drafted) =
          raise_stored-ok b kind id (record { db = db1; queue = [] }) raised in
        (
          db1,
          c,
          published-after b kind id db db1 db' (replace_row (change c.row) db.organizations)
              (change c.row) r d c.result c.there found drafted stands,
        )
