-- ===== src/Document/Seeds.antt =====
-- The seed's contribution of domain/document/storage.go: the hierarchies of a named state, each entry
-- ensured under its id, with seedOrganization of database.go. A write's count is of the entries that
-- it created, an error's among them.
pub mod Events
use Prim.Native.Char.{Char, code}
use Prim.Native.String
use go_web_service.Prelude.{
  ℕ, zero, suc, ◌+◌, String, Bool, true, false, ◌||◌, Option, none, some, List, [], ◌∷◌,
  if◌then◌else◌, ◌=ℕ=◌, Error, Sentinel, sentinel, wrap, Result, ok, err, is,
}
use go_web_service.Database.{Database}
use go_web_service.Database.Events.{EventData}
use go_web_service.Database.Transactions.{Emitting, ◌>>=◌, ◌>>◌, pure, on_db}
use go_web_service.Database.Engine.{Engine}
use go_web_service.Database.Engine.Commands.{command}
use go_web_service.Blobfs.{FileTree, FileRow, DirectoryRow}
use go_web_service.Blobfs.Protocols.{Protocols}
use go_web_service.Organization.Statements.{find_seeded}
use go_web_service.Document.Entities.Seed.{
  SeedEntry, EntryList, SeedEntries, SeedTree, entry, null, entries, nil, cons, is_directory,
}
use go_web_service.Document.Store.{on_tree}
use go_web_service.Document.Store.Present.{raise_directory}
use go_web_service.Document.Store.Roots.{ensure_root}
use go_web_service.Document.Store.Directories.{strip_slash}
use go_web_service.Document.Store.Files.{emit_uploaded}

push : Char → List String → List String
push c [] = String.◌∷◌ c "" ∷ []
push c (w ∷ ws) = String.◌∷◌ c w ∷ ws

-- strings.SplitSeq(text, "/"): one segment at least
unfoldable pub split_slash : String → List String
unfolding push
split_slash String.[] = "" ∷ []
split_slash (String.◌∷◌ c s) =
    let rest = split_slash s in if code c =ℕ= b'/' then "" ∷ rest else push c rest

-- seed_organization.sql on each segment, from the root.
unfoldable pub seed_path :
    {Tree : Type 0} → Option String → List String → Database Tree → Result String
seed_path none [] db = err (Error.plain "no segment")
seed_path (some id) [] db = ok id
seed_path parent (code ∷ codes) db = elim (find_seeded parent code db.organizations) [
  | none ↦ err (wrap "organization" (sentinel Sentinel.no_rows))
  | some id ↦ seed_path (some id) codes db
]

-- seedOrganization
unfoldable pub seed_organization : {Tree : Type 0} → String → Database Tree → Result String
unfolding split_slash seed_path strip_slash
seed_organization path db = seed_path none (split_slash (strip_slash path)) db

-- How many entries were created, the error if one stopped the seed, and the database.
abbrev pub Seeded : Type 0 → Type 0
Seeded Tree = (ℕ × Option Error) × Database Tree

abbrev pub failed_with : {Tree : Type 0} → Error → Database Tree → Seeded Tree
failed_with e db = ((0, some e), db)

abbrev pub plus : {Tree : Type 0} → ℕ → Seeded Tree → Seeded Tree
plus n ((m, e), db) = ((n + m, e), db)

abbrev pub count_created : {Tree : Type 0} → Bool → Seeded Tree → Seeded Tree
count_created true ((n, e), db) = ((suc n, e), db)
count_created false s = s

-- The file's outcome: an entry that the seed does not own counts nothing.
abbrev pub file_seeded : {Tree : Type 0} → Result (FileRow × Bool) × Database Tree → Seeded Tree
file_seeded (err e, db) =
    if (is e Sentinel.id_taken || is e Sentinel.name_taken || is e Sentinel.deleting)
    then ((0, none), db)
    else failed_with e db
file_seeded (ok (_, true), db) = ((1, none), db)
file_seeded (ok (_, false), db) = ((0, none), db)

module _ {Tree : Type 0} (fs : FileTree Tree) (en : Engine Tree)
    (organization_id root : String) where
  unfoldable pub raise_ensured : DirectoryRow × Bool → Emitting (Database Tree) (Unit {0})
  raise_ensured (dir, created) =
      if created
      then raise_directory EventData.directory_created organization_id root dir
      else pure tt

  -- The transaction of seedDirectory.
  unfoldable pub ensure_body :
      String → String → String → Emitting (Database Tree) (DirectoryRow × Bool)
  unfolding raise_ensured
  ensure_body parent name id = do
    ensured ← on_db (on_tree (fs.ensure_directory parent name (some id)))
    raise_ensured ensured
    pure ensured

  -- `between` is what other transactions commit before the rerun.
  module _ (between : Database Tree → Database Tree) where
    unfoldable pub rerun :
        String
        → String
        → String
        → Result (DirectoryRow × Bool) × Database Tree
        → Result (DirectoryRow × Bool) × Database Tree
    rerun parent name id (ok r, db) = (ok r, db)
    rerun parent name id (err e, db) =
        if (is e Sentinel.name_taken || is e Sentinel.id_taken)
        then command en (ensure_body parent name id) (between db)
        else (err e, db)

    unfoldable pub seed_directory :
        String → String → String → Database Tree → Result (DirectoryRow × Bool) × Database Tree
    unfolding rerun
    seed_directory parent name id db =
        rerun parent name id (command en (ensure_body parent name id) db)

    module _ (pr : Protocols (Database Tree)) where
      unfoldable mutual
        pub seed_entries : String → SeedEntries → Database Tree → Seeded Tree
        seed_entries parent nil db = ((0, none), db)
        seed_entries parent (cons e es) db =
            let ((n, failure), db') = seed_entry parent e db in
            elim failure [
              | some x ↦ ((n, some (wrap "entry" x)), db')
              | none ↦ plus n (seed_entries parent es db')
            ]

        pub seed_list : String → EntryList → Database Tree → Seeded Tree
        seed_list parent null db = ((0, none), db)
        seed_list parent (entries es) db = seed_entries parent es db

        pub seed_entry : String → SeedEntry → Database Tree → Seeded Tree
        seed_entry parent (entry id name list content_type content) db =
            elim (is_directory (entry id name list content_type content)) [
              | err e ↦ failed_with e db
              | ok true ↦
                  let (ensured, db') = seed_directory parent name id db in
                  elim ensured [
                    | err e ↦
                        if (is e Sentinel.id_taken || is e Sentinel.deleting)
                        then ((0, none), db')
                        else failed_with e db'
                    | ok (dir, created) ↦ count_created created (seed_list dir.id list db')
                  ]
              | ok false ↦ file_seeded (
                  pr.ensure_file parent id name content_type content
                    (emit_uploaded en organization_id) db)
            ]

module _ {Tree : Type 0} (fs : FileTree Tree) (en : Engine Tree) (pr : Protocols (Database Tree))
    (before after between : Database Tree → Database Tree) where
  tree_under : String → SeedEntries → Result String × Database Tree → Seeded Tree
  tree_under organization_id es (err e, db) = failed_with e db
  tree_under organization_id es (ok root, db) =
      seed_entries fs en organization_id root between pr root es db

  -- seedTree: the root under the tree's root id, then its entries; the root is not counted.
  unfoldable pub seed_tree : SeedTree → Database Tree → Seeded Tree
  unfolding tree_under
  seed_tree t db = elim (seed_organization t.organization db) [
    | err e ↦ failed_with e db
    | ok organization_id ↦
        tree_under organization_id t.entries
          (ensure_root fs en before after organization_id (some t.root) db)
  ]

  -- Write, over the trees of the state file
  unfoldable pub write : List SeedTree → Database Tree → Seeded Tree
  write [] db = ((0, none), db)
  write (t ∷ ts) db =
      let ((n, failure), db') = seed_tree t db in
      elim failure [
        | some e ↦ ((n, some (wrap "seed documents" e)), db')
        | none ↦ plus n (write ts db')
      ]
