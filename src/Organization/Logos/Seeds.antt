-- ===== src/Organization/Logos/Seeds.antt =====
-- domain/organization/storage.go: logoSeed, the seed's contribution of logos. The embedded fixtures,
-- net/http's content type detection and the view's read of an organization by its path are
-- parameters; a fixture's size is given beside its bytes.
pub mod Activations
pub mod Settling
pub mod Effects
use Prim.Native.String
use go_web_service.Prelude.{
  ℕ, suc, ltb, String, Bool, true, false, ◌&&◌, Option, none, some, List, [], ◌∷◌, if◌then◌else◌,
  ◌==◌, Error, Sentinel, Typed, same, Result, ok, err, is, as_typed, wrap, wrapping, join_errors,
}
use go_web_service.Database.{Database}
use go_web_service.Database.Transactions.{Emitting, ◌>>=◌, ◌>>◌, pure, fail, reading, on_db}
use go_web_service.Database.Engine.{Engine}
use go_web_service.Database.Engine.Commands.{command}
use go_web_service.Blobfs.{FileTree, FileRow, DirectoryRow}
use go_web_service.Blobfs.Protocols.{Protocols}
use go_web_service.Document.Store.{on_tree}
use go_web_service.Organization.Entities.{logo_extension}
use go_web_service.Organization.Logos.{
  active_logo, attach, raise_uploaded, removal_error, images_directory,
}

-- logoSeedRow
pub record LogoSeedRow : Type 0 where
  pub id : String
  pub organization : String
  pub fixture : String

pub record Fixture : Type 0 where
  pub body : String
  pub size : ℕ

abbrev pub max_logo_body : ℕ
max_logo_body = 1_048_576

-- A fixture that passes the upload's rules: its bytes, and its type with the type's extension.
pub record Checked : Type 0 where
  pub body : String
  pub content_type : String
  pub ext : String

-- The first ConstraintError of the tree.
abbrev pub is_constraint : Typed → Bool
is_constraint (Typed.constraint_error class name) = true
is_constraint _ = false

abbrev pub violated : String → Option (Typed × String) → Bool
violated name none = false
violated name (some (Typed.constraint_error class constraint, text)) =
    same class Sentinel.unique_violation && constraint == name
violated name (some (_, text)) = false

-- `errors.As(err, &ce) && ce.Class == sqlate.ErrUniqueViolation`, and ce.Constraint is `name`
unfoldable pub violates : String → Error → Bool
violates name e = violated name (as_typed is_constraint e)

-- abandoned, of an error that may be nil
unfoldable pub abandoned_seed : Option Error → Option Error → Option Error
abandoned_seed failure none = join_errors failure none
abandoned_seed failure (some removal) =
    if is removal Sentinel.not_found then failure else join_errors failure (some removal)

-- `return false, err`
abbrev pub unseeded : Option Error → Result Bool
unseeded none = ok false
unseeded (some e) = err e

module _ (detect : String → String) where
  -- The checks of a fixture, before any I/O.
  unfoldable pub check_fixture : Result Fixture → Result Checked
  check_fixture (err e) = err e
  check_fixture (ok f) =
      if ltb max_logo_body f.size
      then err (Error.plain "the fixture is over the logo's bytes")
      else elim (logo_extension (detect f.body)) [
        | err e ↦ err (wrap "fixture" e)
        | ok ext ↦ ok (record { body = f.body; content_type = detect f.body; ext = ext })
      ]

module _ {Tree : Type 0} (fs : FileTree Tree) where
  unfoldable pub attach_seed : String → FileRow → Emitting (Database Tree) (String × Bool)
  attach_seed organization_id f = do
    on_db (attach fs organization_id f.id)
    raise_uploaded organization_id f
    pure (f.id, true)

  -- The activation, unless a logo is active: the organization's active logo, and whether this attached
  -- it.
  unfoldable pub attach_unless :
      String → FileRow → Result FileRow → Emitting (Database Tree) (String × Bool)
  unfolding attach_seed
  attach_unless organization_id f (ok current) = pure (current.id, false)
  attach_unless organization_id f (err e) =
      if is e Sentinel.no_rows then attach_seed organization_id f else fail e

  unfoldable pub seed_body : String → FileRow → Emitting (Database Tree) (String × Bool)
  unfolding attach_unless
  seed_body organization_id f = do
    on_db (on_tree (fs.hold_file f.id))
    (λ d. attach_unless organization_id f (active_logo fs organization_id d.db) d)

  module _ (en : Engine Tree) (pr : Protocols (Database Tree)) where
    -- The end of seedLogo: the file that this run stored is retired.
    unfoldable pub retire :
        FileRow → Bool → Option Error → Database Tree → Result Bool × Database Tree
    retire f false failure db = (unseeded failure, db)
    retire f true failure db =
        let (removed, db') = pr.remove_file_id f.id (some f.version) db in
        (unseeded (abandoned_seed failure (removal_error removed)), db')

    -- The loser of an activation: what the read of the active logo found.
    unfoldable pub lost_to :
        FileRow → Bool → Result FileRow → Database Tree → Result Bool × Database Tree
    unfolding retire
    lost_to f stored (err e) db = (err (wrap "the active logo, after losing the activation" e), db)
    lost_to f stored (ok current) db =
        if current.id == f.id then (ok false, db) else retire f stored none db

    -- `after` is what other transactions commit after the activation that failed.
    module _ (between after : Database Tree → Database Tree) where
      -- What follows the activation's transaction.
      unfoldable pub settle_seed :
          String
          → FileRow
          → Bool
          → Result (String × Bool) × Database Tree
          → Result Bool × Database Tree
      unfolding lost_to retire
      settle_seed organization_id f stored (ok (active, attached), db) =
          if active == f.id then (ok attached, db) else retire f stored none db
      settle_seed organization_id f stored (err e, db) =
          if is e Sentinel.deleting
          then (ok false, db)
          else if violates "uq_organization_image_file" e
          then (ok false, db)
          else if violates "ux_organization_image_active" e
          then lost_to f stored (active_logo fs organization_id (after db)) (after db)
          else retire f stored (some e) db

      -- From the write of the object on; `between` is what other transactions commit before the
      -- activation.
      unfoldable pub activate_seed :
          String → Result (FileRow × Bool) × Database Tree → Result Bool × Database Tree
      unfolding settle_seed
      activate_seed organization_id (err e, db) =
          if is e Sentinel.deleting
          then (ok false, db)
          else if is e Sentinel.id_taken
          then (ok false, db)
          else if is e Sentinel.name_taken
          then (ok false, db)
          else (err e, db)
      activate_seed organization_id (ok (f, stored), db) =
          settle_seed organization_id f stored
            (command en (seed_body organization_id f) (between db))

      -- The file's row and its object, under the directory that the images share.
      unfoldable pub write_seed :
          String
          → String
          → Checked
          → Result ((DirectoryRow × Bool) × Tree)
          → Database Tree
          → Result Bool × Database Tree
      unfolding activate_seed
      write_seed organization_id id c (err e) db = (err e, db)
      write_seed organization_id id c (ok ((dir, _), t)) db = activate_seed organization_id (
          pr.ensure_file dir.id id (String.◌++◌ id c.ext) c.content_type c.body (λ f. pure tt)
            (record db { tree = t }))

      -- Past the fixture's checks and the read of the organization.
      unfoldable pub seed_unless :
          String → String → Checked → Result FileRow → Database Tree → Result Bool × Database Tree
      unfolding write_seed
      seed_unless organization_id id c (ok current) db = (ok false, db)
      seed_unless organization_id id c (err e) db =
          if is e Sentinel.no_rows
          then write_seed organization_id id c
              (fs.ensure_directory fs.root_id images_directory none db.tree) db
          else (err e, db)

      module _ (detect : String → String) (fixtures : String → Result Fixture)
          (find_path : String → Database Tree → Result String) where
        -- seedLogo
        unfoldable pub seed_logo : LogoSeedRow → Database Tree → Result Bool × Database Tree
        unfolding check_fixture seed_unless
        seed_logo l db = elim (check_fixture detect (fixtures l.fixture)) [
          | err e ↦ (err e, db)
          | ok c ↦ elim (find_path l.organization db) [
            | err e ↦ (err (wrap "organization" e), db)
            | ok organization_id ↦
                seed_unless organization_id l.id c (active_logo fs organization_id db) db
          ]
        ]

        -- Write, over the rows of the state file, after `n` activations.
        unfoldable pub write_logos :
            ℕ → List LogoSeedRow → Database Tree → (ℕ × Option Error) × Database Tree
        write_logos n [] db = ((n, none), db)
        write_logos n (l ∷ ls) db =
            let (seeded, db') = seed_logo l db in
            elim seeded [
              | err e ↦ ((n, some (wrap "seed logo" e)), db')
              | ok true ↦ write_logos (suc n) ls db'
              | ok false ↦ write_logos n ls db'
            ]
