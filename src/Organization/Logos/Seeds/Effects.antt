-- ===== src/Organization/Logos/Seeds/Effects.antt =====
-- What a seeded logo that is counted left.
use Prim.Native.String
use go_web_service.Prelude.{
  String, Bool, true, Bool-cases, ◌≡◌, refl, ap, arith, none, Error, Sentinel, Result, ok, err, is,
  result_cases, inl, inr,
}
use go_web_service.Database.{Database}
use go_web_service.Database.Transactions.{pure}
use go_web_service.Database.Engine.{Engine}
use go_web_service.Database.Engine.Commands.{command}
use go_web_service.Blobfs.{FileTree, FileRow, DirectoryRow}
use go_web_service.Blobfs.Protocols.{Protocols}
use go_web_service.Organization.Logos.{active_logo, images_directory}
use go_web_service.Organization.Logos.Commands.{IsActivated}
use go_web_service.Organization.Logos.Seeds.Activations.{seed_body-IsActivated}
use go_web_service.Organization.Logos.Seeds.Settling.{settle-true}
use go_web_service.Organization.Logos.Seeds.{
  LogoSeedRow, Fixture, Checked, check_fixture, seed_body, activate_seed, write_seed, seed_unless,
  seed_logo,
}

module _ {Tree : Type 0} (fs : FileTree Tree) where
  module _ (en : Engine Tree) where
    module _ (pr : Protocols (Database Tree)) where
      module _ (between after : Database Tree → Database Tree) where
        -- The activation at the end of a seed that counts, of the file that the write returned, over what
        -- other transactions had committed.
        record IsAttached (organization_id : String) (x : Result (FileRow × Bool) × Database Tree)
            (db' : Database Tree) : Type 0 where
          pub file : FileRow
          pub stored : Bool
          pub db1 : Database Tree
          pub written : x ≡ (ok (file, stored), db1)
          pub active : String
          pub ran :
              command en (seed_body fs organization_id file) (between db1)
              ≡ (ok (active, true), db')

        -- The write of a logo's file, under the directory that the images share.
        abbrev pub file_written :
            String
            → Checked
            → DirectoryRow
            → Database Tree
            → Result (FileRow × Bool) × Database Tree
        file_written id c dir db =
            pr.ensure_file dir.id id (String.◌++◌ id c.ext) c.content_type c.body (λ f. pure tt) db

        record IsPlaced (organization_id id : String) (c : Checked)
            (x : Result ((DirectoryRow × Bool) × Tree)) (db db' : Database Tree) : Type 0 where
          pub dir : DirectoryRow
          pub made : Bool
          pub t : Tree
          pub placed : x ≡ ok ((dir, made), t)
          pub attached :
              IsAttached organization_id (file_written id c dir (record db { tree = t })) db'

        activate-true :
            (organization_id : String) (x : Result (FileRow × Bool) × Database Tree)
            {db' : Database Tree}
            → activate_seed fs en pr between after organization_id x ≡ (ok true, db')
            → IsAttached organization_id x db'
        unfolding activate_seed
        activate-true organization_id (err e, db) h =
            absurd (ground (arith, ap (λ (r : Result Bool × Database Tree). r.0) h))
        activate-true organization_id (ok (f, stored), db) h =
            let (active, ran) =
              settle-true fs en pr between after organization_id f stored
                (command en (seed_body fs organization_id f) (between db)) h in
            record {
              file = f;
              stored = stored;
              db1 = db;
              written = refl;
              active = active;
              ran = ran;
            }

        write-true :
            (organization_id id : String) (c : Checked) (x : Result ((DirectoryRow × Bool) × Tree))
            (db : Database Tree) {db' : Database Tree}
            → write_seed fs en pr between after organization_id id c x db ≡ (ok true, db')
            → IsPlaced organization_id id c x db db'
        unfolding write_seed
        write-true organization_id id c (err e) db h =
            absurd (ground (arith, ap (λ (r : Result Bool × Database Tree). r.0) h))
        write-true organization_id id c (ok ((dir, made), t)) db h = record {
          dir = dir;
          made = made;
          t = t;
          placed = refl;
          attached = activate-true organization_id _ h;
        }

        unless-true :
            (organization_id id : String) (c : Checked) (x : Result FileRow) (db : Database Tree)
            {db' : Database Tree}
            → seed_unless fs en pr between after organization_id id c x db ≡ (ok true, db')
            → IsPlaced organization_id id c
                (fs.ensure_directory fs.root_id images_directory none db.tree)
                db
                db'
              × (e : Error) × (x ≡ err e)
              × (is e Sentinel.no_rows ≡ true)
        unfolding seed_unless
        unless-true organization_id id c (ok current) db h =
            absurd (ground (arith, ap (λ (r : Result Bool × Database Tree). r.0) h))
        unless-true organization_id id c (err e) db h = elim (Bool-cases (is e Sentinel.no_rows)) [
          | inl missing ↦ (write-true organization_id id c _ db (rw missing at h), e, refl, missing)
          | inr other ↦
              absurd (ground (arith, ap (λ (r : Result Bool × Database Tree). r.0) (rw other at h)))
        ]

        module _ (detect : String → String) (fixtures : String → Result Fixture)
            (find_path : String → Database Tree → Result String) where
          -- A logo that a seed counts: the fixture passed, the organization had no active logo, and the
          -- file that was written is now its one active image, with one event more than what the
          -- activation began on.
          pub record IsCounted (l : LogoSeedRow) (db db' : Database Tree) : Type 0 where
            pub organization_id : String
            pub found : find_path l.organization db ≡ ok organization_id
            pub checked : Checked
            pub allowed : check_fixture detect (fixtures l.fixture) ≡ ok checked
            pub cause : Error
            pub inactive : active_logo fs organization_id db ≡ err cause
            pub missing : is cause Sentinel.no_rows ≡ true
            -- The directory of the images, and the file written under it.
            pub dir : DirectoryRow
            pub made : Bool
            pub t : Tree
            pub placed :
                fs.ensure_directory fs.root_id images_directory none db.tree ≡ ok ((dir, made), t)
            pub file : FileRow
            pub stored : Bool
            pub db1 : Database Tree
            pub written :
                file_written l.id checked dir (record db { tree = t }) ≡ (ok (file, stored), db1)
            -- The hold and the activation, over what others committed once it was written.
            pub held : Tree
            pub is_held : fs.hold_file file.id (between db1).tree ≡ ok (tt, held)
            pub activated :
                IsActivated fs organization_id file (record (between db1) { tree = held }) db'

          -- A seed of a logo that reports an activation found the organization, with no active logo, and
          -- a fixture within the upload's rules, wrote that fixture's file, and leaves the file as the
          -- organization's one active image, bound by no other. To the outbox that the write and what
          -- others committed after it left, it adds the upload's one event. No other path reports one.
          pub seed_logo-IsCounted :
              (l : LogoSeedRow) (db : Database Tree) {db' : Database Tree}
              → seed_logo fs en pr between after detect fixtures find_path l db ≡ (ok true, db')
              → IsCounted l db db'
          unfolding seed_logo
          seed_logo-IsCounted l db {db'} h =
              elim (result_cases (check_fixture detect (fixtures l.fixture))) [
                | inr (e, refused) ↦ absurd (
                    ground (
                      arith,
                      ap (λ (r : Result Bool × Database Tree). r.0) (rw (seed_logo, refused) at h),
                    ))
                | inl (c, allowed) ↦ elim (result_cases (find_path l.organization db)) [
                  | inr (e, missing) ↦ absurd (
                      ground (
                        arith,
                        ap (λ (r : Result Bool × Database Tree). r.0)
                            (rw (seed_logo, allowed, missing) at h),
                      ))
                  | inl (organization_id, found) ↦
                      let (at_end, e, inactive, missing) =
                        unless-true organization_id l.id c (active_logo fs organization_id db) db
                          (rw (seed_logo, allowed, found) at h) in
                      let a = at_end.attached in
                      let (held, is_held, activated) =
                        seed_body-IsActivated fs en organization_id a.file (between a.db1) a.ran in
                      record {
                        organization_id = organization_id;
                        found = found;
                        checked = c;
                        allowed = allowed;
                        cause = e;
                        inactive = inactive;
                        missing = missing;
                        dir = at_end.dir;
                        made = at_end.made;
                        t = at_end.t;
                        placed = at_end.placed;
                        file = a.file;
                        stored = a.stored;
                        db1 = a.db1;
                        written = a.written;
                        held = held;
                        is_held = is_held;
                        activated = activated;
                      }
                ]
              ]
