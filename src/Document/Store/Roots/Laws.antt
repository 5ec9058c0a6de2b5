-- ===== src/Document/Store/Roots/Laws.antt =====
-- What ensuring a document root establishes, whoever wins the race for it.
use go_web_service.Prelude.{
  String, Bool, true, false, ◌≡◌, refl, sym, ap, ◌∙◌, subst, List, [], ◌∷◌, ◌++◌, any, find_first,
  arith, Option, some, ◌==◌, ◌||◌, eq_refl, if◌then◌else◌, Result, ok, err, inl, inr, is, wrapping,
  Sentinel, Bool-cases,
}
use go_web_service.Database.{Database, OwnerRow}
use go_web_service.Database.Events.{Event, EventData}
use go_web_service.Database.Transactions.{Draft, Emitting, ◌>>=◌, pure, on_db}
use go_web_service.Database.Transactions.Steps.{reading-then-ok, on_db-then-ok}
use go_web_service.Database.Engine.{Engine, published}
use go_web_service.Database.Engine.Commands.{command, command-ok}
use go_web_service.Blobfs.{FileTree, DirectoryRow}
use go_web_service.Document.Store.{on_tree, document_root, organization_exists, bind, with_owners}
use go_web_service.Document.Store.Present.{directory_data}
use go_web_service.Document.Store.Roots.{raise_created, root_body, settle_root, ensure_root}
use go_web_service.Document.Store.Directories.Commands.{event, on_tree-eq-ok}

abbrev owner : String → String → OwnerRow
owner organization_id directory_id = record {
  directory_id = directory_id;
  organization_id = organization_id;
}

-- No two owner rows have one organization, nor one directory.
abbrev pub HasOneRoot : List OwnerRow → Type 0
HasOneRoot [] = Unit
HasOneRoot (o ∷ os) =
    (any (λ x. x.organization_id == o.organization_id) os ≡ false)
    × (any (λ x. x.directory_id == o.directory_id) os ≡ false)
    × HasOneRoot os

find_first-append :
    (p : OwnerRow → Bool) (os : List OwnerRow) (o : OwnerRow)
    → any p os ≡ false
    → p o ≡ true
    → find_first p (os ++ o ∷ []) ≡ some o
find_first-append p [] o absent h = rw h
find_first-append p (x ∷ os) o absent h = ground (arith, find_first-append p os o)

module _ {Tree : Type 0} (fs : FileTree Tree) where
  -- A bind that succeeds found no owner row of the organization, nor of the directory, and added one.
  pub bind-ok :
      (organization_id directory_id : String) (db : Database Tree) {db' : Database Tree}
      → bind fs organization_id directory_id db ≡ ok (tt, db')
      → (any (λ o. o.organization_id == organization_id) db.owners ≡ false)
        × (any (λ o. o.directory_id == directory_id) db.owners ≡ false)
        × (db' ≡ with_owners db (db.owners ++ owner organization_id directory_id ∷ []))
  unfolding bind
  bind-ok organization_id directory_id db h = (ground arith, ground arith, ground arith)

  bound-root :
      (organization_id directory_id : String) (db : Database Tree)
      → any (λ o. o.organization_id == organization_id) db.owners ≡ false
      → document_root organization_id
          (with_owners db (db.owners ++ owner organization_id directory_id ∷ []))
        ≡ ok directory_id
  unfolding document_root
  bound-root organization_id directory_id db absent = rw (
    document_root,
    find_first-append (λ o. o.organization_id == organization_id) db.owners
        (owner organization_id directory_id) absent (eq_refl organization_id),
  )

  -- The event of a root that this call's insert created, with its row, and none of a found one.
  abbrev pub root_events : String → DirectoryRow × Bool → List Event
  root_events organization_id (dir, created) =
      if created
      then event dir.id (EventData.directory_created (directory_data organization_id dir.id dir))
        ∷ []
      else []

  -- What the transaction that creates a root leaves.
  pub record IsRooted (organization_id : String) (id : Option String) (db : Database Tree)
      (root : String) (db' : Database Tree) : Type 0 where
    pub ensured : DirectoryRow × Bool
    pub t : Tree
    pub stepped : fs.ensure_directory fs.root_id organization_id id db.tree ≡ ok (ensured, t)
    pub answer : root ≡ (ensured.0).id
    pub known : organization_exists organization_id db ≡ ok tt
    pub absent : any (λ o. o.organization_id == organization_id) db.owners ≡ false
    pub unowned : any (λ o. o.directory_id == (ensured.0).id) db.owners ≡ false
    pub result : db' ≡ record db {
      owners = db.owners ++ owner organization_id (ensured.0).id ∷ [];
      tree = t;
      outbox = db.outbox ++ root_events organization_id ensured;
    }

  created-ok :
      (organization_id : String) (ensured : DirectoryRow × Bool) (db : Database Tree)
      {root : String} {d : Draft (Database Tree)}
      → (raise_created fs organization_id ensured >>= λ _. pure (ensured.0).id)
          (record { db = db; queue = [] })
        ≡ ok (root, d)
      → (root ≡ (ensured.0).id)
        × (d ≡ record { db = db; queue = root_events organization_id ensured })
  unfolding raise_created
  created-ok organization_id (dir, true) db h = (cc, cc)
  created-ok organization_id (dir, false) db h = (cc, cc)

  wrapping-ok :
      {A : Type 0} (text : String) (x : Result A) {a : A} → wrapping text x ≡ ok a → x ≡ ok a
  wrapping-ok text (ok b) h = h
  wrapping-ok text (err e) h = cc

  module _ (en : Engine Tree) where
    pub root_body-ok :
        (organization_id : String) (id : Option String) (db : Database Tree) {root : String}
        {db' : Database Tree}
        → command en (root_body fs organization_id id) db ≡ (ok root, db')
        → IsRooted organization_id id db root db'
    unfolding root_body
    root_body-ok organization_id id db {root} {db'} h =
        let (d, ran, stands) = command-ok en (root_body fs organization_id id) db h in
        let start : Draft (Database Tree) = record { db = db; queue = [] } in
        let last : DirectoryRow × Bool → Emitting (Database Tree) String =
          λ ensured. raise_created fs organization_id ensured >>= λ _. pure (ensured.0).id in
        let owned : DirectoryRow × Bool → Emitting (Database Tree) String =
          λ ensured. on_db (bind fs organization_id (ensured.0).id) >>= λ _. last ensured in
        let (_, known, ensuring) =
          reading-then-ok (λ s. wrapping "organization" (organization_exists organization_id s.db))
            start
            (λ _. on_db (on_tree (fs.ensure_directory fs.root_id organization_id id)) >>= owned)
            ran in
        let (ensured, db1, stepped, owning) =
          on_db-then-ok (on_tree (fs.ensure_directory fs.root_id organization_id id)) start owned
            ensuring in
        let (t, inserted, is_inserted) =
          on_tree-eq-ok (fs.ensure_directory fs.root_id organization_id id) db stepped in
        let (_, db2, bound, raising) =
          on_db-then-ok (bind fs organization_id (ensured.0).id)
            (record { db = record db { tree = t }; queue = [] }) (λ _. last ensured)
            (subst (λ x. owned ensured (record { db = x; queue = [] }) ≡ ok (root, d)) is_inserted
              owning) in
        let (absent, unowned, is_bound) =
          bind-ok organization_id (ensured.0).id (record db { tree = t }) bound in
        let (answer, drafted) = created-ok organization_id ensured db2 raising in
        record {
          ensured = ensured;
          t = t;
          stepped = inserted;
          answer = answer;
          known = wrapping-ok "organization" (organization_exists organization_id db) known;
          absent = absent;
          unowned = unowned;
          result =
              stands
              ∙ ap published drafted
              ∙ ap (λ x. published (record { db = x; queue = root_events organization_id ensured }))
                  is_bound;
        }

    rooted-root :
        (organization_id : String) (id : Option String) (db : Database Tree) {root : String}
        {db' : Database Tree}
        → IsRooted organization_id id db root db'
        → document_root organization_id db' ≡ ok root
    unfolding document_root
    rooted-root organization_id id db {root} r =
        ap (document_root organization_id) r.result
        ∙ bound-root organization_id (r.ensured.0).id db r.absent
        ∙ ap ok (sym r.answer)

    module _ (before after : Database Tree → Database Tree) where
      settle_root-ok :
          (organization_id : String) (id : Option String) (db : Database Tree)
          (x : Result String × Database Tree) {root : String} {db' : Database Tree}
          → x ≡ command en (root_body fs organization_id id) db
          → settle_root fs en before after organization_id x ≡ (ok root, db')
          → document_root organization_id db' ≡ ok root
      unfolding settle_root
      settle_root-ok organization_id id db (ok r, db1) same h =
          rooted-root organization_id id db (root_body-ok organization_id id db (sym same ∙ h))
      settle_root-ok organization_id id db (err e, db1) same h =
          elim (Bool-cases (is e Sentinel.name_taken || is e Sentinel.unique_violation)) [
            | inl lost ↦ ground arith
            | inr other ↦ absurd (ground arith)
          ]

      read_root-ok :
          (organization_id : String) (id : Option String) (db : Database Tree) (x : Result String)
          {root : String} {db' : Database Tree}
          → x ≡ document_root organization_id db
          → (elim x as (λ _. Result String × Database Tree) [
            | ok root ↦ (ok root, db)
            | err e ↦
                if is e Sentinel.no_rows
                then settle_root fs en before after organization_id
                    (command en (root_body fs organization_id id) (before db))
                else (err e, db)
          ])
            ≡ (ok root, db')
          → document_root organization_id db' ≡ ok root
      read_root-ok organization_id id db (ok r) found h = ground arith
      read_root-ok organization_id id db (err e) missing h =
          elim (Bool-cases (is e Sentinel.no_rows)) [
            | inl absent ↦ settle_root-ok organization_id id (before db) _ refl (rw absent at h)
            | inr other ↦ absurd (ground arith)
          ]

      -- A root that `ensure_root` returns is the organization's document root in the database that it
      -- returns, whether the root stood before, this call made it, or another transaction won the race.
      pub ensure_root-ok :
          (organization_id : String) (id : Option String) (db : Database Tree) {root : String}
          {db' : Database Tree}
          → ensure_root fs en before after organization_id id db ≡ (ok root, db')
          → document_root organization_id db' ≡ ok root
      unfolding ensure_root
      ensure_root-ok organization_id id db h =
          read_root-ok organization_id id db (document_root organization_id db) refl h
