-- ===== src/Document/Store/Directories/Invariant.antt =====
-- The owner rows under every sequence of the directory operations' transactions.
use go_web_service.Prelude.{
  ℕ, String, Bool, false, ◌≡◌, refl, sym, subst, ap, List, [], ◌∷◌, ◌++◌, any, keep, arith, Option,
  ◌==◌, eq_iff, Error, Result, ok, err,
}
use go_web_service.Database.{Database, OwnerRow}
use go_web_service.Database.Transactions.{Emitting}
use go_web_service.Database.Engine.{Engine}
use go_web_service.Database.Engine.Commands.{command, command-err}
use go_web_service.Blobfs.{FileTree, DirectoryRow}
use go_web_service.Document.Entities.{MoveDirectory}
use go_web_service.Document.Store.Roots.{root_body}
use go_web_service.Document.Store.Roots.Laws.{HasOneRoot, root_body-ok}
use go_web_service.Document.Store.Directories.{
  create_body, delete_body, delete_directory, mark_body, mark_branch, move_body, move_directory,
  identity_of,
}
use go_web_service.Document.Store.Directories.Commands.{
  create_body-ok, delete_directory-ok, move_directory-ok,
}
use go_web_service.Document.Store.Directories.Marks.{mark_branch-ok}

any-snoc :
    (p : OwnerRow → Bool) (os : List OwnerRow) (o : OwnerRow)
    → any p os ≡ false
    → p o ≡ false
    → any p (os ++ o ∷ []) ≡ false
any-snoc p [] o h k = rw k
any-snoc p (x ∷ os) o h k = ground (arith, any-snoc p os o)

any-keep :
    (p q : OwnerRow → Bool) (os : List OwnerRow) → any p os ≡ false → any p (keep q os) ≡ false
any-keep p q [] h = refl
any-keep p q (o ∷ os) h = ground (arith, any-keep p q os)

String-test-sym : (a b : String) → (a == b) ≡ false → (b == a) ≡ false
String-test-sym a b h = ground (arith, eq_iff a b, eq_iff b a)

HasOneRoot-append :
    (os : List OwnerRow) (o : OwnerRow)
    → HasOneRoot os
    → any (λ x. x.organization_id == o.organization_id) os ≡ false
    → any (λ x. x.directory_id == o.directory_id) os ≡ false
    → HasOneRoot (os ++ o ∷ [])
HasOneRoot-append [] o t h k = (refl, refl, tt)
HasOneRoot-append (x ∷ os) o (a, b, t) h k = (
  any-snoc (λ y. y.organization_id == x.organization_id) os o a
      (String-test-sym x.organization_id o.organization_id (ground arith)),
  any-snoc (λ y. y.directory_id == x.directory_id) os o b
      (String-test-sym x.directory_id o.directory_id (ground arith)),
  HasOneRoot-append os o t (ground arith) (ground arith),
)

HasOneRoot-keep :
    (q : OwnerRow → Bool) (os : List OwnerRow) → HasOneRoot os → HasOneRoot (keep q os)
HasOneRoot-keep q [] t = tt
HasOneRoot-keep q (o ∷ os) (a, b, t) = ground (
  arith,
  any-keep (λ y. y.organization_id == o.organization_id) q os a,
  any-keep (λ y. y.directory_id == o.directory_id) q os b,
  HasOneRoot-keep q os t,
)

-- The transactions that the directory operations commit.
pub data Change : Type 0 where
  ensure : String → Option String → Change
  create : (organization_id parent_id name : String) → Change
  move : String → String → ℕ → MoveDirectory → Change
  mark : String → String → ℕ → Change
  remove : String → String → ℕ → Change

module _ {Tree : Type 0} (fs : FileTree Tree) (en : Engine Tree) where
  -- The database after a transaction, whatever it returned.
  abbrev pub step : Change → Database Tree → Database Tree
  step (ensure org id) db = (command en (root_body fs org id) db).1
  step (create org parent name) db = (command en (create_body fs org parent name) db).1
  step (move org id v m) db = (move_directory fs en org id v m db).1
  step (mark org id v) db = (mark_branch fs en org id v db).1
  step (remove org id v) db = (delete_directory fs en org id v db).1

  abbrev pub run : List Change → Database Tree → Database Tree
  run [] db = db
  run (c ∷ cs) db = run cs (step c db)

  abbrev pub HasRoots : Database Tree → Type 0
  HasRoots db = HasOneRoot db.owners

  kept : {x db' : Database Tree} → db' ≡ x → HasRoots x → HasRoots db'
  kept same t = subst HasRoots (sym same) t

  failed :
      {A : Type 0} (f : Emitting (Database Tree) A) {db db' : Database Tree} {e : Error}
      → HasRoots db
      → command en f db ≡ (err e, db')
      → HasRoots db'
  failed f {db} t h = subst HasRoots (sym (command-err en f db h)) t

  ensured-HasRoots :
      (org : String) (id : Option String) (db : Database Tree) (r : Result String)
      (db' : Database Tree)
      → HasRoots db
      → command en (root_body fs org id) db ≡ (r, db')
      → HasRoots db'
  ensured-HasRoots org id db (ok root) db' t h =
      let i = root_body-ok fs en org id db h in
      kept i.result (HasOneRoot-append db.owners _ t i.absent i.unowned)
  ensured-HasRoots org id db (err e) db' t h = failed (root_body fs org id) t h

  created-HasRoots :
      (org parent name : String) (db : Database Tree) (r : Result DirectoryRow)
      (db' : Database Tree)
      → HasRoots db
      → command en (create_body fs org parent name) db ≡ (r, db')
      → HasRoots db'
  created-HasRoots org parent name db (ok dir) db' t h =
      let (root, at, bound, inside, (tree, made, result)) =
        create_body-ok fs en org parent name db h in
      kept result t
  created-HasRoots org parent name db (err e) db' t h = failed (create_body fs org parent name) t h

  moved-HasRoots :
      (org id : String) (v : ℕ) (m : MoveDirectory) (db : Database Tree) (r : Result DirectoryRow)
      (db' : Database Tree)
      → HasRoots db
      → command en (move_body fs org id v m) db ≡ (r, db')
      → HasRoots db'
  unfolding move_directory
  moved-HasRoots org id v m db (ok dir) db' t h =
      let i =
        move_directory-ok fs en org id v m db {db' = db'} (ap (λ x. (identity_of x.0, x.1)) h) in
      kept i.result t
  moved-HasRoots org id v m db (err e) db' t h = failed (move_body fs org id v m) t h

  marked-HasRoots :
      (org id : String) (v : ℕ) (db : Database Tree) (r : Result String) (db' : Database Tree)
      → HasRoots db
      → mark_branch fs en org id v db ≡ (r, db')
      → HasRoots db'
  unfolding mark_branch
  marked-HasRoots org id v db (ok a) db' t h =
      let i = mark_branch-ok fs org en id v db h in kept i.result t
  marked-HasRoots org id v db (err e) db' t h = failed (mark_body fs org id v) t h

  removed-HasRoots :
      (org id : String) (v : ℕ) (db : Database Tree) (r : Result (Unit {0})) (db' : Database Tree)
      → HasRoots db
      → delete_directory fs en org id v db ≡ (r, db')
      → HasRoots db'
  unfolding delete_directory
  removed-HasRoots org id v db (ok u) db' t h =
      let i = delete_directory-ok fs en org id v db h in
      kept i.result (HasOneRoot-keep _ db.owners t)
  removed-HasRoots org id v db (err e) db' t h = failed (delete_body fs org id v) t h

  step-HasRoots : (c : Change) (db : Database Tree) → HasRoots db → HasRoots (step c db)
  unfolding move_directory
  step-HasRoots (ensure org id) db t = ensured-HasRoots org id db _ _ t refl
  step-HasRoots (create org parent name) db t = created-HasRoots org parent name db _ _ t refl
  step-HasRoots (move org id v m) db t = moved-HasRoots org id v m db _ _ t refl
  step-HasRoots (mark org id v) db t = marked-HasRoots org id v db _ _ t refl
  step-HasRoots (remove org id v) db t = removed-HasRoots org id v db _ _ t refl

  -- Whatever sequence of the directory operations' transactions commits or is refused, the root's
  -- creation among them, an organization has at most one document root and a root one organization.
  pub run-HasRoots : (cs : List Change) (db : Database Tree) → HasRoots db → HasRoots (run cs db)
  run-HasRoots [] db t = t
  run-HasRoots (c ∷ cs) db t = run-HasRoots cs (step c db) (step-HasRoots c db t)
