-- ===== src/Document/Store/Directories/Scope.antt =====
-- What the scope check of every operation establishes, and its refusals.
use go_web_service.Prelude.{
  String, Bool, true, false, ◌≡◌, refl, ◌⊎◌, inl, inr, ◌||◌, arith, if◌then◌else◌, ◌==◌,
  result_cases, String-cases, eq_iff, Sentinel, sentinel, wrap, Result, ok, err,
}
use go_web_service.Database.{Database}
use go_web_service.Database.Transactions.{Draft, Emitting, ◌>>=◌, reading}
use go_web_service.Database.Transactions.Steps.{reading-then-ok}
use go_web_service.Blobfs.{FileTree}
use go_web_service.Document.Entities.{root_alias}
use go_web_service.Document.Store.{document_root, within, scope}

-- The directory that a request's id names: its own, or the root under the alias.
abbrev pub IsNamed : String → String → String → Type 0
IsNamed root id dir = (dir ≡ id) ⊎ ((id ≡ root_alias) × (dir ≡ root))

module _ {Tree : Type 0} (fs : FileTree Tree) where
  -- The directory is the document root, or blobfs finds it within the root.
  abbrev pub IsInside : String → String → Tree → Type 0
  IsInside root id t = (id ≡ root) ⊎ (fs.is_within id root t ≡ ok true)

  within_by :
      (root id : String) (db : Database Tree) (dir : String) (named : Bool) (x : Result Bool)
      → x ≡ fs.is_within id root db.tree
      → (if named then ok root else (elim x as (λ _. Result String) [
        | err e ↦ err e
        | ok false ↦ err (wrap "directory" (sentinel Sentinel.not_found))
        | ok true ↦ ok id
      ]))
        ≡ ok dir
      → IsInside root dir db.tree
  within_by root id db dir true x same h = inl (ground arith)
  within_by root id db dir false (ok true) same h = inr (ground arith)
  within_by root id db dir false (ok false) same h = cc
  within_by root id db dir false (err e) same h = cc

  -- An id that `within` accepts resolves to the root or to a directory within it.
  pub within-IsInside :
      (root id : String) (db : Database Tree) {dir : String}
      → within fs root id db ≡ ok dir
      → IsInside root dir db.tree
  unfolding within
  within-IsInside root id db {dir} h =
      within_by root id db dir (id == root_alias || id == root) (fs.is_within id root db.tree) refl
        h

  -- An id that `within` accepts names what it resolves to.
  within-IsNamed :
      (root id : String) (db : Database Tree) {dir : String}
      → within fs root id db ≡ ok dir
      → IsNamed root id dir
  unfolding within
  within-IsNamed root id db {dir} h = elim (String-cases id root_alias) [
    | inl alias ↦ inr (alias, ground (arith, h, (eq_iff id root_alias).1 alias))
    | inr (_, other) ↦ elim (String-cases id root) [
      | inl same ↦ inl (ground (arith, h, same, (eq_iff id root).1 same))
      | inr (_, apart) ↦ elim (result_cases (fs.is_within id root db.tree)) [
        | inl (true, held) ↦ inl (ground (arith, h, other, apart, held))
        | inl (false, held) ↦ absurd (ground (arith, h, other, apart, held))
        | inr (e, held) ↦ absurd (ground (arith, h, other, apart, held))
      ]
    ]
  ]

  scope_by :
      (id : String) (db : Database Tree) {r : String × String} (x : Result String)
      → (elim x as (λ _. Result (String × String)) [
        | err e ↦ err (wrap "document root" e)
        | ok root ↦ elim (within fs root id db) [ err e ↦ err e | ok dir ↦ ok (root, dir) ]
      ])
        ≡ ok r
      → (x ≡ ok r.0) × (within fs r.0 id db ≡ ok r.1)
  scope_by id db (ok root) h = elim (result_cases (within fs root id db)) [
    | inl (dir, found) ↦ (ground arith, ground arith)
    | inr (e, refused) ↦ absurd (ground arith)
  ]
  scope_by id db (err e) h = cc

  -- A scope that resolves is the organization's bound root with a directory inside it.
  pub scope-IsInside :
      (organization_id id : String) (db : Database Tree) {r : String × String}
      → scope fs organization_id id db ≡ ok r
      → (document_root organization_id db ≡ ok r.0) × IsNamed r.0 id r.1 × IsInside r.0 r.1 db.tree
  unfolding scope
  scope-IsInside organization_id id db {r} h =
      let (bound, inside) = scope_by id db (document_root organization_id db) h in
      (bound, within-IsNamed r.0 id db inside, within-IsInside r.0 id db inside)

  -- The scope check at the head of a chain that succeeds.
  pub scope-then-ok :
      {A : Type 0} (organization_id id : String) (d : Draft (Database Tree))
      (f : String × String → Emitting (Database Tree) A) {r : A × Draft (Database Tree)}
      → (reading (λ s. scope fs organization_id id s.db) >>= f) d ≡ ok r
      → (root : String) × (dir : String) × (document_root organization_id d.db ≡ ok root)
        × IsNamed root id dir
        × IsInside root dir d.db.tree
        × (f (root, dir) d ≡ ok r)
  scope-then-ok organization_id id d f h =
      let (scoped, found, rest) = reading-then-ok (λ s. scope fs organization_id id s.db) d f h in
      let (bound, named, inside) = scope-IsInside organization_id id d.db found in
      (scoped.0, scoped.1, bound, named, inside, rest)
