-- ===== src/Document/Store/Directories/Commands.antt =====
-- What the directory commands leave: where they act, what blobfs did to its rows, and their events.
use go_web_service.Prelude.{
  ℕ, String, true, false, ◌≡◌, sym, ap, ◌∙◌, [], ◌∷◌, ◌++◌, arith, ◌==◌, Result, ok, err,
  result_cases, inl, inr, keep, if◌then◌else◌, subst,
}
use go_web_service.Database.{Database}
use go_web_service.Database.Events.{Event, EventData}
use go_web_service.Database.Transactions.{
  Tx, Draft, Emitting, ◌>>=◌, pure, fail, reading, on_db, raise,
}
use go_web_service.Database.Transactions.Steps.{reading-then-ok, refusal-then-ok, on_db-then-ok}
use go_web_service.Database.Engine.{Engine, published}
use go_web_service.Database.Engine.Commands.{command, command-ok}
use go_web_service.Blobfs.{FileTree, DirectoryRow}
use go_web_service.Document.Entities.{err_root_move, MoveDirectory, Identity, DirectoryData}
use go_web_service.Document.Store.{on_tree, document_root, within, delete_directory_row}
use go_web_service.Document.Store.Present.{directory_data, raise_directory}
use go_web_service.Document.Store.Directories.{
  create_body, delete_body, delete_directory, move_body, move_directory, identity_of,
}
use go_web_service.Document.Store.Directories.Scope.{
  IsInside, IsNamed, scope-then-ok, within-IsInside,
}

abbrev pub event : String → EventData → Event
event subject body = record { subject = subject; body = body }

-- The database with blobfs's rows as a step left them, and one more event.
abbrev pub after : {Tree : Type 0} → Database Tree → Tree → Event → Database Tree
after db t e = record db { tree = t; outbox = db.outbox ++ e ∷ [] }

pub on_tree-eq-ok :
    {Tree A : Type 0} (m : Tx Tree A) (db : Database Tree) {a : A} {db' : Database Tree}
    → on_tree m db ≡ ok (a, db')
    → (t : Tree) × (m db.tree ≡ ok (a, t)) × (db' ≡ record db { tree = t })
on_tree-eq-ok m db h = elim (result_cases (m db.tree)) [
  | inl ((b, t), e) ↦ (t, ground arith, ground arith)
  | inr (x, e) ↦ absurd (ground arith)
]

identity_of-ok :
    {S : Type 0} (x : Result DirectoryRow × S) {ident : Identity} {s : S}
    → ◌≡◌ {A = Result Identity × S} (identity_of x.0, x.1) (ok ident, s)
    → (dir : DirectoryRow) × (x ≡ (ok dir, s))
      × (ident ≡ record { id = dir.id; version = dir.version })
identity_of-ok (ok dir, s) h = (dir, ground arith, ground arith)
identity_of-ok (err e, s) h = absurd (ground arith)

drafted-eq :
    {S : Type 0} {x d : S} → ◌≡◌ {A = Result (Unit {0} × S)} (ok (tt, x)) (ok (tt, d)) → x ≡ d
drafted-eq h = ground arith

module _ {Tree : Type 0} (fs : FileTree Tree) where
  -- A blobfs step on the tree, then its event and its row, as the moves and the creates end.
  stepped-published :
      (m : Tx Tree DirectoryRow) (kind : DirectoryData → EventData) (organization_id root : String)
      (db db' : Database Tree) (d : Draft (Database Tree)) {dir : DirectoryRow}
      → (on_db (on_tree m) >>= λ row.
            raise_directory kind organization_id root row >>= λ _. pure row)
          (record { db = db; queue = [] })
        ≡ ok (dir, d)
      → db' ≡ published d
      → (t : Tree) × (m db.tree ≡ ok (dir, t))
        × (db' ≡ after db t (event dir.id (kind (directory_data organization_id root dir))))
  stepped-published m kind organization_id root db db' d {dir} h stands =
      let (row, db1, ran, rest) =
        on_db-then-ok (on_tree m) (record { db = db; queue = [] })
          (λ row. raise_directory kind organization_id root row >>= λ _. pure row) h in
      let (t, wrote, result) = on_tree-eq-ok m db ran in
      let same : row ≡ dir = cc in
      let drafted : d ≡ record {
        db = db1;
        queue = event row.id (kind (directory_data organization_id root row)) ∷ [];
      } =
        cc in
      (
        t,
        subst (λ x. m db.tree ≡ ok (x, t)) same wrote,
        stands
            ∙ ap published drafted
            ∙ ap
                (λ x. published (record {
                  db = x;
                  queue = event row.id (kind (directory_data organization_id root row)) ∷ [];
                }))
                result
            ∙ ap
                (λ (x : DirectoryRow).
                  after db t (event x.id (kind (directory_data organization_id root x))))
                same,
      )

  module _ (en : Engine Tree) (organization_id : String) where
    -- A create's transaction that returns made one directory of the name, under a parent inside the
    -- organization's document root, and emitted one event, with that directory.
    pub create_body-ok :
        (parent_id name : String) (db : Database Tree) {dir : DirectoryRow} {db' : Database Tree}
        → command en (create_body fs organization_id parent_id name) db ≡ (ok dir, db')
        → (root : String) × (parent : String) × (document_root organization_id db ≡ ok root)
          × IsInside fs root parent db.tree
          × ((t : Tree) × (fs.create_directory parent name db.tree ≡ ok (dir, t))
              × (db'
                  ≡ after db t (
                      event dir.id
                        (EventData.directory_created (directory_data organization_id root dir)))))
    unfolding create_body
    create_body-ok parent_id name db {dir} {db'} h =
        let (d, ran, stands) = command-ok en (create_body fs organization_id parent_id name) db h in
        let (root, parent, bound, _, inside, rest) =
          scope-then-ok fs organization_id parent_id (record { db = db; queue = [] })
            (λ scoped. on_db (on_tree (fs.create_directory scoped.1 name)) >>= λ row.
              raise_directory EventData.directory_created organization_id scoped.0 row >>= λ _.
              pure row)
            ran in
        (
          root,
          parent,
          bound,
          inside,
          stepped-published (fs.create_directory parent name) EventData.directory_created
              organization_id root db db' d rest stands,
        )

    -- What a move that returned did: the directory that the request names, inside the document root and not the root itself,
    -- stands under a parent inside the same root, and one event carries the moved row.
    pub record IsMoved (requested : String) (version : ℕ) (m : MoveDirectory) (db : Database Tree)
        (ident : Identity) (db' : Database Tree) : Type 0 where
      pub root : String
      pub id : String
      pub parent : String
      pub bound : document_root organization_id db ≡ ok root
      pub named : IsNamed root requested id
      pub inside : IsInside fs root id db.tree
      pub is_no_root : (id == root) ≡ false
      pub parent_inside : IsInside fs root parent db.tree
      pub dir : DirectoryRow
      pub t : Tree
      pub moved : fs.move_directory id parent m.name version db.tree ≡ ok (dir, t)
      pub answer : ident ≡ record { id = dir.id; version = dir.version }
      pub result :
          db'
          ≡ after db t
              (event dir.id (EventData.directory_moved (directory_data organization_id root dir)))

    -- A move that returns moved, at the version, the directory that the request names, one of the
    -- organization's hierarchy other than its root, to a parent of the same hierarchy, and emitted one event with the row as moved.
    pub move_directory-ok :
        (id : String) (version : ℕ) (m : MoveDirectory) (db : Database Tree) {ident : Identity}
        {db' : Database Tree}
        → move_directory fs en organization_id id version m db ≡ (ok ident, db')
        → IsMoved id version m db ident db'
    unfolding move_directory move_body
    move_directory-ok id version m db {db' = db'} h =
        let (dir, done, answer) =
          identity_of-ok (command en (move_body fs organization_id id version m) db) h in
        let (d, ran, stands) = command-ok en (move_body fs organization_id id version m) db done in
        let start : Draft (Database Tree) = record { db = db; queue = [] } in
        let write : String → String → String → Emitting (Database Tree) DirectoryRow =
          λ root id parent. on_db (on_tree (fs.move_directory id parent m.name version)) >>= λ row.
          raise_directory EventData.directory_moved organization_id root row >>= λ _. pure row in
        let place : String → String → Emitting (Database Tree) DirectoryRow =
          λ root id. reading (λ s. within fs root m.parent_id s.db) >>= write root id in
        let (root, dir_id, bound, named, inside, checked) =
          scope-then-ok fs organization_id id start
            (λ scoped. (if scoped.1 == scoped.0 then fail err_root_move else pure tt) >>= λ _.
              place scoped.0 scoped.1)
            ran in
        let (no_root, placed) =
          refusal-then-ok (dir_id == root) _ start (λ _. place root dir_id) checked in
        let (parent, found, written) =
          reading-then-ok (λ s. within fs root m.parent_id s.db) start (write root dir_id) placed in
        let (t, moved, result) =
          stepped-published (fs.move_directory dir_id parent m.name version)
            EventData.directory_moved organization_id root db db' d written stands in
        record {
          root = root;
          id = dir_id;
          parent = parent;
          bound = bound;
          named = named;
          inside = inside;
          is_no_root = no_root;
          parent_inside = within-IsInside fs root m.parent_id db found;
          dir = dir;
          t = t;
          moved = moved;
          answer = answer;
          result = result;
        }

    -- What a delete that returned did: blobfs deleted the directory that the request names at the version, the owner rows
    -- that named it went with it, and one event carries the id and the version.
    pub record IsDeleted (requested : String) (version : ℕ) (db db' : Database Tree) : Type 0 where
      pub root : String
      pub id : String
      pub bound : document_root organization_id db ≡ ok root
      pub named : IsNamed root requested id
      pub inside : IsInside fs root id db.tree
      pub t : Tree
      pub deleted : fs.delete_directory id version db.tree ≡ ok (tt, t)
      pub result : db' ≡ record db {
        owners = keep (λ o. if o.directory_id == id then false else true) db.owners;
        tree = t;
        outbox =
            db.outbox
            ++ event id (
                EventData.directory_deleted (record {
                  directory_id = id;
                  organization_id = organization_id;
                  version = version;
                }))
              ∷ [];
      }

    delete_directory_row-ok :
        (id : String) (version : ℕ) (db : Database Tree) {db' : Database Tree}
        → delete_directory_row fs id version db ≡ ok (tt, db')
        → (t : Tree) × (fs.delete_directory id version db.tree ≡ ok (tt, t))
          × (db' ≡ record db {
            tree = t;
            owners = keep (λ o. if o.directory_id == id then false else true) db.owners;
          })
    unfolding delete_directory_row
    delete_directory_row-ok id version db h =
        elim (result_cases (fs.delete_directory id version db.tree)) [
          | inl ((u, t), e) ↦ (t, ground arith, ground arith)
          | inr (x, e) ↦ absurd (ground arith)
        ]

    -- A delete that returns removed, at the version, the directory that the request names, its id or the
    -- alias of the root, one of the organization's hierarchy, with the owner row if it was the root, and emitted one event with its id and that version.
    pub delete_directory-ok :
        (id : String) (version : ℕ) (db : Database Tree) {db' : Database Tree}
        → delete_directory fs en organization_id id version db ≡ (ok tt, db')
        → IsDeleted id version db db'
    unfolding delete_directory delete_body
    delete_directory-ok id version db {db'} h =
        let (d, ran, stands) = command-ok en (delete_body fs organization_id id version) db h in
        let body : String → EventData = λ id.
          EventData.directory_deleted
            (record { directory_id = id; organization_id = organization_id; version = version }) in
        let (root, dir, bound, named, inside, rest) =
          scope-then-ok fs organization_id id (record { db = db; queue = [] })
            (λ scoped. on_db (delete_directory_row fs scoped.1 version) >>= λ _.
              raise scoped.1 (body scoped.1))
            ran in
        let (_, db1, removed, raised) =
          on_db-then-ok (delete_directory_row fs dir version) (record { db = db; queue = [] })
            (λ _. raise dir (body dir)) rest in
        let (t, deleted, gone) = delete_directory_row-ok dir version db removed in
        record {
          root = root;
          id = dir;
          bound = bound;
          named = named;
          inside = inside;
          t = t;
          deleted = deleted;
          result =
              stands
              ∙ sym (ap published (drafted-eq raised))
              ∙ ap
                  (λ (x : Database Tree). record x {
                    outbox = x.outbox ++ event dir (body dir) ∷ [];
                  })
                  gone;
        }
