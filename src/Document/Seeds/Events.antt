-- ===== src/Document/Seeds/Events.antt =====
-- The transaction that ensures a seeded directory: its event, and the owner rows that it leaves.
use go_web_service.Prelude.{
  String, Bool, true, false, ◌≡◌, refl, sym, ap, ◌∙◌, subst, List, [], ◌∷◌, ◌++◌, arith, some,
  if◌then◌else◌, ◌||◌, Sentinel, is, ◌⊎◌, Error, Result, ok, err, inl, inr, Bool-cases,
}
use go_web_service.Database.{Database}
use go_web_service.Database.Events.{Event, EventData}
use go_web_service.Database.Transactions.{Draft, Emitting, ◌>>=◌, pure}
use go_web_service.Database.Transactions.Steps.{on_db-then-ok}
use go_web_service.Database.Engine.{Engine, published}
use go_web_service.Database.Engine.Commands.{command, command-ok, command-err}
use go_web_service.Blobfs.{FileTree, DirectoryRow}
use go_web_service.Document.Store.{on_tree}
use go_web_service.Document.Store.Present.{directory_data}
use go_web_service.Document.Store.Directories.Commands.{event, on_tree-eq-ok}
use go_web_service.Document.Seeds.{raise_ensured, ensure_body, rerun, seed_directory}

module _ {Tree : Type 0} (fs : FileTree Tree) (en : Engine Tree)
    (organization_id root : String) where
  -- The event of a directory that the insert created, and none of a found one.
  abbrev pub ensured_events : DirectoryRow × Bool → List Event
  ensured_events (dir, created) =
      if created
      then event dir.id (EventData.directory_created (directory_data organization_id root dir)) ∷ []
      else []

  -- What the transaction did, on the database that it began on.
  pub record IsEnsured (parent name id : String) (r : DirectoryRow × Bool) (db db' : Database Tree)
      : Type 0 where
    pub t : Tree
    pub ensured : fs.ensure_directory parent name (some id) db.tree ≡ ok (r, t)
    pub result : db' ≡ record db { tree = t; outbox = db.outbox ++ ensured_events r }

  raise_ensured-ok :
      (ensured : DirectoryRow × Bool) (db : Database Tree) {r : DirectoryRow × Bool}
      {d : Draft (Database Tree)}
      → (raise_ensured fs en organization_id root ensured >>= λ _. pure ensured)
          (record { db = db; queue = [] })
        ≡ ok (r, d)
      → (ensured ≡ r) × (d ≡ record { db = db; queue = ensured_events ensured })
  unfolding raise_ensured
  raise_ensured-ok (dir, true) db h = (cc, cc)
  raise_ensured-ok (dir, false) db h = (cc, cc)

  ensure_body-ok :
      (parent name id : String) (db : Database Tree) {r : DirectoryRow × Bool} {db' : Database Tree}
      → command en (ensure_body fs en organization_id root parent name id) db ≡ (ok r, db')
      → IsEnsured parent name id r db db'
  unfolding ensure_body
  ensure_body-ok parent name id db {r} {db'} h =
      let (d, ran, stands) =
        command-ok en (ensure_body fs en organization_id root parent name id) db h in
      let last : DirectoryRow × Bool → Emitting (Database Tree) (DirectoryRow × Bool) =
        λ e. raise_ensured fs en organization_id root e >>= λ _. pure e in
      let (e, db1, stepped, rest) =
        on_db-then-ok (on_tree (fs.ensure_directory parent name (some id)))
          (record { db = db; queue = [] }) last ran in
      let (t, inserted, is_inserted) =
        on_tree-eq-ok (fs.ensure_directory parent name (some id)) db stepped in
      let (same, drafted) = raise_ensured-ok e db1 rest in
      record {
        t = t;
        ensured =
            subst (λ x. fs.ensure_directory parent name (some id) db.tree ≡ ok (x, t)) same
              inserted;
        result =
            stands
            ∙ ap published drafted
            ∙ ap (λ x. published (record { db = x; queue = ensured_events e })) is_inserted
            ∙ ap (λ x. record db { tree = t; outbox = db.outbox ++ ensured_events x }) same;
      }

  module _ (between : Database Tree → Database Tree) where
    -- Where the transaction that committed began: on the database given, or, once the first was refused
    -- for a name or an id that is taken and so left nothing, on what others then committed.
    abbrev pub IsStart : String → String → String → Database Tree → Database Tree → Type 0
    IsStart parent name id db start =
        (start ≡ db)
        ⊎ ((start ≡ between db)
            × ((e : Error) × (command en (ensure_body fs en organization_id root parent name id) db
                  ≡ (err e, db))
                × ((is e Sentinel.name_taken || is e Sentinel.id_taken) ≡ true)))

    rerun-IsEnsured :
        (parent name id : String) (db : Database Tree)
        (x : Result (DirectoryRow × Bool) × Database Tree) {r : DirectoryRow × Bool}
        {db' : Database Tree}
        → x ≡ command en (ensure_body fs en organization_id root parent name id) db
        → rerun fs en organization_id root between parent name id x ≡ (ok r, db')
        → (start : Database Tree) × IsStart parent name id db start
          × IsEnsured parent name id r start db'
    unfolding rerun
    rerun-IsEnsured parent name id db (ok s, db1) same h =
        (db, inl refl, ensure_body-ok parent name id db (sym same ∙ h))
    rerun-IsEnsured parent name id db (err e, db1) same h =
        elim (Bool-cases (is e Sentinel.name_taken || is e Sentinel.id_taken)) [
          | inl raced ↦
              let f = ensure_body fs en organization_id root parent name id in
              let unchanged : db1 ≡ db = command-err en f db (sym same) in
              (
                between db1,
                inr (
                  ap between unchanged,
                  (e, subst (λ x. command en f db ≡ (err e, x)) unchanged (sym same), raced),
                ),
                ensure_body-ok parent name id (between db1) (rw raced at h),
              )
          | inr other ↦ absurd (ground arith)
        ]

    -- A seeded directory that is returned was ensured by one committed transaction, the first or its
    -- rerun after a refusal for a taken name or id, which emitted one event if its insert created the
    -- directory, and none if it was found, on top of what it began on: the database given, or that
    -- with what others committed between the two.
    pub seed_directory-IsEnsured :
        (parent name id : String) (db : Database Tree) {r : DirectoryRow × Bool}
        {db' : Database Tree}
        → seed_directory fs en organization_id root between parent name id db ≡ (ok r, db')
        → (start : Database Tree) × IsStart parent name id db start
          × IsEnsured parent name id r start db'
    unfolding seed_directory
    seed_directory-IsEnsured parent name id db h = rerun-IsEnsured parent name id db _ refl h
