-- ===== src/Document/Store/Directories/Marks.antt =====
-- The mark of a branch, and the event that only the first mark emits.
use go_web_service.Prelude.{
  ℕ, String, Bool, true, false, ◌≡◌, ap, ◌∙◌, subst, List, [], ◌∷◌, ◌++◌, arith, ok, result_cases,
  inl, inr, if◌then◌else◌,
}
use go_web_service.Database.{Database}
use go_web_service.Database.Events.{Event, EventData}
use go_web_service.Database.Transactions.{Draft, Emitting, ◌>>=◌, pure, reading, on_db}
use go_web_service.Database.Transactions.Steps.{reading-then-ok, on_db-then-ok}
use go_web_service.Database.Engine.{Engine, published}
use go_web_service.Database.Engine.Commands.{command-ok}
use go_web_service.Blobfs.{FileTree, DirectoryRow}
use go_web_service.Document.Store.{on_tree, document_root}
use go_web_service.Document.Store.Directories.{mark_body, mark_branch, raise_marked, is_first}
use go_web_service.Document.Store.Directories.Scope.{IsInside, IsNamed, scope-then-ok}
use go_web_service.Document.Store.Directories.Commands.{event, on_tree-eq-ok}

module _ {Tree : Type 0} (fs : FileTree Tree) (organization_id : String) where
  abbrev pub marked_event : String → ℕ → Event
  marked_event id version = event id (
      EventData.directory_deleted
        (record { directory_id = id; organization_id = organization_id; version = version }))

  -- The events of a mark: one, at the version that the mark left, if it is the first, and none if not.
  pub data IsReported (id : String) (t : Tree) : Bool → List Event → Type 0 where
    first :
        (row : DirectoryRow)
        → fs.find_directory id t ≡ ok row
        → IsReported id t true (marked_event id row.version ∷ [])
    retried : IsReported id t false []

  -- What a mark that returned did: under the tree's lock, the status of the directory that the request
  -- names was read, then blobfs marked its branch at the version.
  pub record IsMarked (requested : String) (version : ℕ) (db : Database Tree) (answer : String)
      (db' : Database Tree) : Type 0 where
    pub root : String
    pub bound : document_root organization_id db ≡ ok root
    pub named : IsNamed root requested answer
    pub inside : IsInside fs root answer db.tree
    pub held : Tree
    pub locked : fs.lock_tree db.tree ≡ ok (tt, held)
    pub anchor : DirectoryRow
    pub found : fs.find_directory answer held ≡ ok anchor
    pub count : ℕ
    pub t : Tree
    pub marked : fs.mark_deleting answer version held ≡ ok (count, t)
    pub events : List Event
    pub reported : IsReported answer t (is_first anchor.status count) events
    pub result : db' ≡ record db { tree = t; outbox = db.outbox ++ events }

  report-ok :
      (id : String) (b : Bool) (db : Database Tree) {answer : String} {d : Draft (Database Tree)}
      → ((if b then raise_marked fs organization_id id else pure tt) >>= λ _. pure id)
          (record { db = db; queue = [] })
        ≡ ok (answer, d)
      → (id ≡ answer)
        × ((events : List Event) × IsReported id db.tree b events
            × (d ≡ record { db = db; queue = events }))
  unfolding raise_marked
  report-ok id false db h = (ground arith, ([], retried, cc))
  report-ok id true db h = elim (result_cases (fs.find_directory id db.tree)) [
    | inl (row, found) ↦
        (ground arith, (marked_event id row.version ∷ [], first row found, ground arith))
    | inr (e, refused) ↦ absurd (ground arith)
  ]

  module _ (en : Engine Tree) where
    -- A mark that returns began, at the version, the delete of the directory that the request names, its
    -- id or the alias of the root, one of the organization's hierarchy, and answers its id. It emits the directory's event, at the version that the mark left, exactly when the
    -- directory was active under the lock and the mark counted a directory: a retry emits nothing.
    pub mark_branch-ok :
        (id : String) (version : ℕ) (db : Database Tree) {answer : String} {db' : Database Tree}
        → mark_branch fs en organization_id id version db ≡ (ok answer, db')
        → IsMarked id version db answer db'
    unfolding mark_branch mark_body
    mark_branch-ok id version db {answer} {db'} h =
        let (d, ran, stands) = command-ok en (mark_body fs organization_id id version) db h in
        let start : Draft (Database Tree) = record { db = db; queue = [] } in
        let last : String → DirectoryRow → ℕ → Emitting (Database Tree) String = λ id anchor n.
          (if is_first anchor.status n then raise_marked fs organization_id id else pure tt)
          >>= λ _. pure id in
        let mark : String → DirectoryRow → Emitting (Database Tree) String =
          λ id anchor. on_db (on_tree (fs.mark_deleting id version)) >>= last id anchor in
        let look : String → Emitting (Database Tree) String =
          λ id. reading (λ s. fs.find_directory id (s.db).tree) >>= mark id in
        let (root, dir, bound, named, inside, rest) =
          scope-then-ok fs organization_id id start
            (λ scoped. on_db (on_tree fs.lock_tree) >>= λ _. look scoped.1) ran in
        let (_, db1, lock, looked) =
          on_db-then-ok (on_tree fs.lock_tree) start (λ _. look dir) rest in
        let (held, locked, is_held) = on_tree-eq-ok fs.lock_tree db lock in
        let (anchor, found, marking) =
          reading-then-ok (λ s. fs.find_directory dir (s.db).tree)
            (record { db = record db { tree = held }; queue = [] }) (mark dir)
            (subst (λ x. look dir (record { db = x; queue = [] }) ≡ ok (answer, d)) is_held
              looked) in
        let (count, db2, wrote, reporting) =
          on_db-then-ok (on_tree (fs.mark_deleting dir version))
            (record { db = record db { tree = held }; queue = [] }) (last dir anchor) marking in
        let (t, marked, is_marked) =
          on_tree-eq-ok (fs.mark_deleting dir version) (record db { tree = held }) wrote in
        let (same, (events, reported, drafted)) =
          report-ok dir (is_first anchor.status count) (record db { tree = t })
            (subst (λ x. last dir anchor count (record { db = x; queue = [] }) ≡ ok (answer, d))
              is_marked reporting) in
        record {
          root = root;
          bound = bound;
          named = subst (λ x. IsNamed root id x) same named;
          inside = subst (λ x. IsInside fs root x db.tree) same inside;
          held = held;
          locked = locked;
          anchor = anchor;
          found = subst (λ x. fs.find_directory x held ≡ ok anchor) same found;
          count = count;
          t = t;
          marked = subst (λ x. fs.mark_deleting x version held ≡ ok (count, t)) same marked;
          events = events;
          reported =
              subst (λ x. IsReported x t (is_first anchor.status count) events) same reported;
          result = stands ∙ ap published drafted;
        }
