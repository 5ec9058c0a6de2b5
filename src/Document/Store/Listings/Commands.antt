-- ===== src/Document/Store/Listings/Commands.antt =====
-- What a listing that returns read, and where.
use go_web_service.Prelude.{
  String, ◌≡◌, refl, sym, subst, ◌∙◌, ap, ◌⊎◌, inl, inr, true, Bool-cases, ◌==◌, eq_iff, List,
  arith, ℤ, Sentinel, sentinel, Error, Result, ok, err, result_cases,
}
use go_web_service.Database.{Database}
use go_web_service.Blobfs.{FileTree, DirectoryRow, FileRow}
use go_web_service.Data.Directives.{
  RequestQuery, Operators, Listing, Collection, Paging, read_listing, paging,
}
use go_web_service.Document.Entities.{root_alias, Directory, File}
use go_web_service.Document.Store.{document_root, organization_exists, within, scope}
use go_web_service.Document.Store.Present.{directory_of, file_of, present}
use go_web_service.Document.Store.Directories.Scope.{IsInside, IsNamed, scope-IsInside}
use go_web_service.Document.Store.Listings.{
  listed, listing, presented, list_scope, list_directories, list_files,
}

module _ {T : Type 0} where
  listed-ok :
      (no_total : ℤ) (x : Result (Collection T)) {r : List T × Paging}
      → listed no_total x ≡ ok r
      → (c : Collection T) × (x ≡ ok c) × (r ≡ (c.items, paging no_total c))
  unfolding listed
  listed-ok no_total (ok c) h = (c, refl, ground (arith, h))
  listed-ok no_total (err e) h = absurd (ground (arith, h))

module _ {T U : Type 0} where
  presented-ok :
      (of : T → Result U) (x : Result (List T × Paging)) {r : List U × Paging}
      → presented of x ≡ ok r
      → (items : List T) × (x ≡ ok (items, r.1)) × (present of items ≡ ok r.0)
  unfolding presented
  presented-ok of (err e) h = cc
  presented-ok of (ok (items, p)) h = elim (result_cases (present of items)) [
    | inl (out, shown) ↦ (items, ground (arith, h, shown), ground (arith, h, shown))
    | inr (e, refused) ↦ absurd (ground (arith, h, refused))
  ]

unbound :
    {Tree : Type 0} (organization_id : String) (db : Database Tree) {e : Error}
    → document_root organization_id db ≡ err e
    → document_root organization_id db ≡ err (sentinel Sentinel.no_rows)
unfolding document_root
unbound organization_id db h = ground (arith, h)

module _ {Tree : Type 0} (fs : FileTree Tree) where
  -- Where a listing reads: the directory that the request names, in the organization's own document
  -- root; or, for the alias of an organization that exists and has no root, under the id minted for
  -- the read.
  abbrev pub IsScope : String → String → String → Database Tree → String × String → Type 0
  IsScope fresh organization_id id db r =
      ((document_root organization_id db ≡ ok r.0)
        × IsNamed r.0 id r.1
        × IsInside fs r.0 r.1 db.tree)
      ⊎ ((id ≡ root_alias)
          × (document_root organization_id db ≡ err (sentinel Sentinel.no_rows))
          × (organization_exists organization_id db ≡ ok tt)
          × (r ≡ (fresh, fresh)))

  rootless :
      (organization_id id : String) (db : Database Tree) {e : Error}
      → (id == root_alias) ≡ true
      → scope fs organization_id id db ≡ err e
      → document_root organization_id db ≡ err (sentinel Sentinel.no_rows)
  unfolding scope within
  rootless organization_id id db named h = elim (result_cases (document_root organization_id db)) [
    | inl (root, bound) ↦ absurd (ground (arith, h, named, bound))
    | inr (e, missing) ↦ unbound organization_id db missing
  ]

  list_scope-IsScope :
      (fresh organization_id id : String) (db : Database Tree) {r : String × String}
      → list_scope fs fresh organization_id id db ≡ ok r
      → IsScope fresh organization_id id db r
  unfolding list_scope
  list_scope-IsScope fresh organization_id id db {r} h =
      elim (result_cases (scope fs organization_id id db)) [
        | inl (scoped, found) ↦ inl (
            subst
              (λ (x : String × String).
                (document_root organization_id db ≡ ok x.0)
                × IsNamed x.0 id x.1
                × IsInside fs x.0 x.1 db.tree)
              (ground (arith, h, found)) (scope-IsInside fs organization_id id db found))
        | inr (e, refused) ↦ elim (Bool-cases (id == root_alias)) [
          | inr other ↦ absurd (ground (arith, h, refused, other))
          | inl named ↦ elim (result_cases (organization_exists organization_id db)) [
            | inl (t, stands) ↦ inr (
              (eq_iff id root_alias).0 named,
              rootless organization_id id db named refused,
              stands,
              ground (arith, h, refused, named, stands),
            )
            | inr (e', missing) ↦ absurd (ground (arith, h, refused, named, missing))
          ]
        ]
      ]

  -- A page that is returned: read under the scope's directory, presented row by row, with its paging.
  pub record IsPage {T U : Type 0} (ops : Operators) (no_total : ℤ) (fresh : String)
      (l : Listing T (Database Tree)) (of : String → T → Result U) (organization_id id : String)
      (q : RequestQuery) (db : Database Tree) (r : List U × Paging) : Type 0 where
    pub root : String
    pub dir : String
    pub scoped : IsScope fresh organization_id id db (root, dir)
    pub page : Collection T
    pub found : read_listing ops l dir q db ≡ ok page
    pub shown : present (of root) page.items ≡ ok r.0
    pub paged : r.1 ≡ paging no_total page

  list_scope-IsPage :
      {T U : Type 0} (ops : Operators) (no_total : ℤ) (fresh : String)
      (l : Listing T (Database Tree)) (of : String → T → Result U) (organization_id id : String)
      (q : RequestQuery) (db : Database Tree) {r : List U × Paging} (x : Result (String × String))
      → list_scope fs fresh organization_id id db ≡ x
      → (elim x as (λ _. Result (List U × Paging)) [
        | err e ↦ err e
        | ok (root, dir) ↦ presented (of root) (listing ops no_total l dir q db)
      ])
        ≡ ok r
      → IsPage ops no_total fresh l of organization_id id q db r
  unfolding listing
  list_scope-IsPage ops no_total fresh l of organization_id id q db (err e) s h = cc
  list_scope-IsPage ops no_total fresh l of organization_id id q db (ok (root, dir)) s h =
      let (items, read, shown) = presented-ok (of root) (listing ops no_total l dir q db) h in
      let (page, found, same) = listed-ok no_total (read_listing ops l dir q db) read in
      record {
        root = root;
        dir = dir;
        scoped = list_scope-IsScope fresh organization_id id db s;
        page = page;
        found = found;
        shown = ap (λ (p : List _ × Paging). present (of root) p.0) (sym same) ∙ shown;
        paged = ap (λ (p : List _ × Paging). p.1) same;
      }

  module _ (ops : Operators) (no_total : ℤ) (fresh organization_id id : String) (q : RequestQuery)
      (db : Database Tree) where
    -- A listing of directories that is returned read one page under the directory that the request
    -- names, its id or the alias of the root, in the organization's own document root, or, for the root alias of an organization that exists
    -- without one, under the id minted for the read, and presents each row of the page in its
    -- order with the page's paging.
    pub list_directories-IsPage :
        (l : Listing DirectoryRow (Database Tree)) {r : List Directory × Paging}
        → list_directories fs ops no_total fresh l organization_id id q db ≡ ok r
        → IsPage ops no_total fresh l (λ root d. directory_of d root) organization_id id q db r
    unfolding list_directories
    list_directories-IsPage l h =
        list_scope-IsPage ops no_total fresh l (λ root d. directory_of d root) organization_id id q
          db (list_scope fs fresh organization_id id db) refl h

    pub list_files-IsPage :
        (l : Listing FileRow (Database Tree)) {r : List File × Paging}
        → list_files fs ops no_total fresh l organization_id id q db ≡ ok r
        → IsPage ops no_total fresh l (λ root f. file_of f) organization_id id q db r
    unfolding list_files
    list_files-IsPage l h =
        list_scope-IsPage ops no_total fresh l (λ root f. file_of f) organization_id id q db
          (list_scope fs fresh organization_id id db) refl h
