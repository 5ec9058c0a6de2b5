-- ===== src/Document/Store/Files/Commands.antt =====
-- Where the file operations act, what they serve, and their events.
use go_web_service.Prelude.{
  ℕ, String, ◌≡◌, refl, sym, ap, ◌∙◌, subst, [], ◌∷◌, arith, Result, ok, err, result_cases, inl,
  inr, wrapping, Sentinel, sentinel, wrap,
}
use go_web_service.Database.{Database}
use go_web_service.Database.Events.{EventData}
use go_web_service.Database.Transactions.{Tx, Draft, Emitting, ◌>>=◌, pure, reading, on_db, raise}
use go_web_service.Database.Transactions.Steps.{reading-then-ok, on_db-then-ok}
use go_web_service.Database.Engine.{Engine, published}
use go_web_service.Database.Engine.Commands.{command, command-ok}
use go_web_service.Blobfs.{FileTree, FileRow}
use go_web_service.Data.Storage.{Download, serve}
use go_web_service.Data.Storage.Laws.{IsServed, serve-IsServed}
use go_web_service.Document.Entities.{MoveFile, Identity}
use go_web_service.Document.Store.{on_tree, document_root, within, file_scope}
use go_web_service.Document.Store.Present.{file_data}
use go_web_service.Document.Store.Directories.Scope.{IsInside, within-IsInside}
use go_web_service.Document.Store.Directories.Commands.{event, after, on_tree-eq-ok}
use go_web_service.Document.Store.Files.{Content, content, move_file, move_file_body, file_identity}

ok-injective : {A : Type 0} {a b : A} → ◌≡◌ {A = Result A} (ok a) (ok b) → a ≡ b
ok-injective h = ground arith

module _ {Tree : Type 0} (fs : FileTree Tree) (organization_id : String) where
  -- A file of the organization: its directory resolves inside the organization's document root.
  pub record IsOwned (id : String) (db : Database Tree) (root : String) (file : FileRow)
      : Type 0 where
    pub bound : document_root organization_id db ≡ ok root
    pub found : fs.find_file id db.tree ≡ ok file
    pub dir : String
    pub resolved : within fs root file.directory_id db ≡ ok dir
    pub inside : IsInside fs root dir db.tree

  file_scope_by :
      (id : String) (db : Database Tree) (x : Result String) {root : String} {file : FileRow}
      → x ≡ document_root organization_id db
      → (elim x as (λ _. Result (String × FileRow)) [
        | err e ↦ err (wrap "document root" e)
        | ok root ↦ elim (fs.find_file id db.tree) [
          | err e ↦ err e
          | ok file ↦ elim (within fs root file.directory_id db) [
            | err e ↦ err (wrap "file" (sentinel Sentinel.not_found))
            | ok dir ↦ ok (root, file)
          ]
        ]
      ])
        ≡ ok (root, file)
      → IsOwned id db root file
  file_scope_by id db (err e) same h = absurd (ground arith)
  file_scope_by id db (ok root) same h = elim (result_cases (fs.find_file id db.tree)) [
    | inr (e, missing) ↦ absurd (ground arith)
    | inl (file, found) ↦ elim (result_cases (within fs root file.directory_id db)) [
      | inr (e, outside) ↦ absurd (ground arith)
      | inl (dir, resolved) ↦
          subst (λ x. IsOwned id db x.0 x.1) (ok-injective (rw (found, resolved) at h))
            (record {
              bound = sym same;
              found = found;
              dir = dir;
              resolved = resolved;
              inside = within-IsInside fs root file.directory_id db resolved;
            })
    ]
  ]

  pub file_scope-IsOwned :
      (id : String) (db : Database Tree) {root : String} {file : FileRow}
      → file_scope fs organization_id id db ≡ ok (root, file)
      → IsOwned id db root file
  unfolding file_scope
  file_scope-IsOwned id db h = file_scope_by id db (document_root organization_id db) refl h

  found_by :
      {A : Type 0} (x : Result (String × FileRow)) (f : FileRow → Result A) {a : A}
      → (elim x as (λ _. Result A) [ err e ↦ err e | ok (root, file) ↦ f file ]) ≡ ok a
      → (root : String) × (file : FileRow) × (x ≡ ok (root, file)) × (f file ≡ ok a)
  found_by (ok (root, file)) f h = (root, file, refl, h)
  found_by (err e) f h = cc

  served_by :
      (file : FileRow) (x : Result Download) {c : Content}
      → (elim (wrapping "content" x) as (λ _. Result Content) [
        | err e ↦ err e
        | ok dl ↦ ok (record { name = file.name; object = dl.object; key = dl.key })
      ])
        ≡ ok c
      → (dl : Download) × (x ≡ ok dl)
        × (c ≡ record { name = file.name; object = dl.object; key = dl.key })
  served_by file (ok dl) h = (dl, refl, ground arith)
  served_by file (err e) h = cc

  -- What a download that is answered serves.
  pub record IsContent (id : String) (db : Database Tree) (c : Content) : Type 0 where
    pub root : String
    pub file : FileRow
    pub owned : IsOwned id db root file
    pub download : Download
    pub served : IsServed file download
    pub answer : c ≡ record { name = file.name; object = download.object; key = download.key }

  -- A download serves only a file whose directory lies in the organization's own document root, and
  -- only once it is available with its size and entity tag.
  pub content-IsContent :
      (id : String) (db : Database Tree) {c : Content}
      → content fs organization_id id db ≡ ok c
      → IsContent id db c
  unfolding content
  content-IsContent id db {c} h =
      let (root, file, found, read) =
        found_by (file_scope fs organization_id id db)
          (λ f. elim (wrapping "content" (serve f)) [
            | err e ↦ err e
            | ok dl ↦ ok (record { name = f.name; object = dl.object; key = dl.key })
          ])
          h in
      let (dl, served, answer) = served_by file (serve file) read in
      record {
        root = root;
        file = file;
        owned = file_scope-IsOwned id db found;
        download = dl;
        served = serve-IsServed file served;
        answer = answer;
      }

  -- What a move of a file that returned did.
  pub record IsFileMoved (id : String) (version : ℕ) (m : MoveFile) (db : Database Tree)
      (ident : Identity) (db' : Database Tree) : Type 0 where
    pub root : String
    pub file : FileRow
    pub owned : IsOwned id db root file
    pub dir : String
    pub inside : IsInside fs root dir db.tree
    pub moved_file : FileRow
    pub t : Tree
    pub moved : fs.move_file id dir m.name version db.tree ≡ ok (moved_file, t)
    pub answer : ident ≡ record { id = moved_file.id; version = moved_file.version }
    pub result :
        db'
        ≡ after db t
            (event moved_file.id (EventData.file_moved (file_data organization_id moved_file)))

  file_identity-ok :
      {S : Type 0} (x : Result FileRow × S) {ident : Identity} {s : S}
      → ◌≡◌ {A = Result Identity × S} (file_identity x.0, x.1) (ok ident, s)
      → (f : FileRow) × (x ≡ (ok f, s)) × (ident ≡ record { id = f.id; version = f.version })
  file_identity-ok (ok f, s) h = (f, ground arith, ground arith)
  file_identity-ok (err e, s) h = absurd (ground arith)

  raised-published :
      (m : Tx Tree FileRow) (db db' : Database Tree) (d : Draft (Database Tree)) {f : FileRow}
      → (on_db (on_tree m) >>= λ row.
            raise row.id (EventData.file_moved (file_data organization_id row)) >>= λ _. pure row)
          (record { db = db; queue = [] })
        ≡ ok (f, d)
      → db' ≡ published d
      → (t : Tree) × (m db.tree ≡ ok (f, t))
        × (db' ≡ after db t (event f.id (EventData.file_moved (file_data organization_id f))))
  raised-published m db db' d {f} h stands =
      let (row, db1, ran, rest) =
        on_db-then-ok (on_tree m) (record { db = db; queue = [] })
          (λ row.
            raise row.id (EventData.file_moved (file_data organization_id row)) >>= λ _. pure row)
          h in
      let (t, wrote, result) = on_tree-eq-ok m db ran in
      let same : row ≡ f = cc in
      let drafted : d ≡ record {
        db = db1;
        queue = event row.id (EventData.file_moved (file_data organization_id row)) ∷ [];
      } =
        cc in
      (
        t,
        subst (λ x. m db.tree ≡ ok (x, t)) same wrote,
        stands
            ∙ ap published drafted
            ∙ ap
                (λ x. published (record {
                  db = x;
                  queue = event row.id (EventData.file_moved (file_data organization_id row)) ∷ [];
                }))
                result
            ∙ ap
                (λ (x : FileRow).
                  after db t (event x.id (EventData.file_moved (file_data organization_id x))))
                same,
      )

  module _ (en : Engine Tree) where
    -- A move of a file that returns took a file of the organization, at the version, into a directory
    -- of the same document root, and emitted one event with the row as moved.
    pub move_file-ok :
        (id : String) (version : ℕ) (m : MoveFile) (db : Database Tree) {ident : Identity}
        {db' : Database Tree}
        → move_file fs en organization_id id version m db ≡ (ok ident, db')
        → IsFileMoved id version m db ident db'
    unfolding move_file move_file_body
    move_file-ok id version m db {db' = db'} h =
        let (f, done, answer) =
          file_identity-ok (command en (move_file_body fs organization_id id version m) db) h in
        let (d, ran, stands) =
          command-ok en (move_file_body fs organization_id id version m) db done in
        let start : Draft (Database Tree) = record { db = db; queue = [] } in
        let write : String → Emitting (Database Tree) FileRow = λ dir.
          on_db (on_tree (fs.move_file id dir m.name version)) >>= λ row.
          raise row.id (EventData.file_moved (file_data organization_id row)) >>= λ _. pure row in
        let (found, scoped, rest) =
          reading-then-ok (λ s. file_scope fs organization_id id s.db) start
            (λ found. reading (λ s. within fs found.0 m.directory_id s.db) >>= write) ran in
        let (dir, resolved, written) =
          reading-then-ok (λ s. within fs found.0 m.directory_id s.db) start write rest in
        let (t, moved, result) =
          raised-published (fs.move_file id dir m.name version) db db' d written stands in
        record {
          root = found.0;
          file = found.1;
          owned = file_scope-IsOwned id db scoped;
          dir = dir;
          inside = within-IsInside fs found.0 m.directory_id db resolved;
          moved_file = f;
          t = t;
          moved = moved;
          answer = answer;
          result = result;
        }
