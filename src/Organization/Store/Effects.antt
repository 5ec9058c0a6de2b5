-- ===== src/Organization/Store/Effects.antt =====
-- What the commands leave: the rows that their statement wrote and the one event that they emit.
use go_web_service.Prelude.{
  String, ◌≡◌, sym, ap, ◌∙◌, subst, eq_refl, none, some, List, [], ◌∷◌, ◌++◌, arith, inl, inr,
  Option-cases, ok,
}
use go_web_service.Database.{Database}
use go_web_service.Database.Events.{EventData, Event}
use go_web_service.Database.Transactions.{Draft, change_then-ok}
use go_web_service.Database.Engine.{published}
use go_web_service.Database.Engine.Commands.{command-ok}
use go_web_service.Organization.Backend.{Backend}
use go_web_service.Organization.Entities.{
  Organization, CreateOrganization, Identity, OrganizationData,
}
use go_web_service.Organization.Schema.{find_row, constraint_fault}
use go_web_service.Organization.Schema.Rows.{find_row-append}
use go_web_service.Organization.Statements.{stored, data_of, with_rows, insert_row, new_row}
use go_web_service.Organization.Statements.Outcomes.{insert_row-ok}
use go_web_service.Organization.Store.{raise_stored, create_body, create}

some-injective : {r s : Organization} → some r ≡ some s → r ≡ s
some-injective h = cc

abbrev pub event : String → EventData → Event
event subject body = record { subject = subject; body = body }

-- The database with new rows and one more event.
abbrev pub after : {Tree : Type 0} → Database Tree → List Organization → Event → Database Tree
after db rows e = record db { organizations = rows; outbox = db.outbox ++ e ∷ [] }

module _ {Tree : Type 0} (b : Backend Tree) where
  -- The event that follows a change carries the row as the change left it.
  pub raise_stored-ok :
      (kind : OrganizationData → EventData) (id : String) (d : Draft (Database Tree))
      {d' : Draft (Database Tree)}
      → raise_stored b kind id d ≡ ok (tt, d')
      → (r : Organization) × (find_row id d.db.organizations ≡ some r)
        × (d' ≡ record d { queue = d.queue ++ event id (kind (data_of r)) ∷ [] })
  unfolding raise_stored stored
  raise_stored-ok kind id d h = elim (Option-cases (find_row id d.db.organizations)) [
    | inl absent ↦ absurd (ground arith)
    | inr (r, found) ↦ (r, found, ground arith)
  ]

  -- The database after a change of rows, once its event, with the row, stands.
  module _ (kind : OrganizationData → EventData) (id : String) (db db1 db' : Database Tree)
      (rows : List Organization) (row r : Organization) (d : Draft (Database Tree)) where
    pub published-after :
        db1 ≡ with_rows db rows
        → find_row id rows ≡ some row
        → find_row id db1.organizations ≡ some r
        → d ≡ record { db = db1; queue = event id (kind (data_of r)) ∷ [] }
        → db' ≡ published d
        → db' ≡ after db rows (event id (kind (data_of row)))
    published-after wrote there found drafted stands =
        let same : some r ≡ some row =
          sym found ∙ ap (λ (x : Database Tree). find_row id x.organizations) wrote ∙ there in
        let row_eq : r ≡ row = some-injective same in
        stands
        ∙ ap published drafted
        ∙ ap
            (λ (x : Database Tree).
              published (record { db = x; queue = event id (kind (data_of r)) ∷ [] }))
            wrote
        ∙ ap (λ x. after db rows (event id (kind (data_of x)))) row_eq

  -- A create that returns added one row, the command's under the minted id, at version 1, which
  -- breaks no constraint, and one event with that row; everything else is as it was.
  pub create-ok :
      (c : CreateOrganization) (db : Database Tree) {ident : Identity} {db' : Database Tree}
      → create b c db ≡ (ok ident, db')
      → let r = new_row b.mint b.now c.parent_id c.code c.name db in
        (constraint_fault db.organizations r ≡ none)
        × (ident ≡ record { id = r.id; version = 1 })
        × (db'
            ≡ after db
                (db.organizations ++ r ∷ [])
                (event r.id (EventData.organization_created (data_of r))))
  unfolding create create_body new_row
  create-ok c db {ident} {db'} h =
      let (d, ran, stands) = command-ok b.engine (create_body b c) db h in
      let (i, db1, inserted, raised, value) =
        change_then-ok (λ i. raise_stored b EventData.organization_created i.id) (λ i. i)
          (insert_row b.mint b.now c) (record { db = db; queue = [] }) ran in
      let (admitted, is_new, rows) = insert_row-ok b.mint b.now c db inserted in
      let (r, found, drafted) =
        raise_stored-ok EventData.organization_created i.id (record { db = db1; queue = [] })
          raised in
      let new = new_row b.mint b.now c.parent_id c.code c.name db in
      let id_eq : i.id ≡ b.mint db = ap (λ (x : Identity). x.id) is_new in
      (
        admitted,
        value ∙ is_new,
        published-after EventData.organization_created (b.mint db) db db1 db'
            (db.organizations ++ new ∷ []) new r d rows
            (rw find_row-append (rw (b.mint_fresh db, eq_refl (b.mint db))))
            (subst (λ x. find_row x db1.organizations ≡ some r) id_eq found)
            (subst
              (λ x. d ≡ record {
                db = db1;
                queue = event x (EventData.organization_created (data_of r)) ∷ [];
              })
              id_eq drafted)
            stands,
      )
