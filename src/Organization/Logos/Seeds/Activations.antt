-- ===== src/Organization/Logos/Seeds/Activations.antt =====
-- The activation of a seeded logo.
use go_web_service.Prelude.{
  String, Bool, true, Bool-cases, ◌≡◌, sym, subst, ap, ◌∙◌, arith, [], ◌∷◌, ◌++◌, Sentinel, Result,
  ok, err, is, inl, inr,
}
use go_web_service.Database.{Database}
use go_web_service.Database.Transactions.{Draft, ◌>>=◌, pure}
use go_web_service.Database.Transactions.Steps.{on_db-then-ok}
use go_web_service.Database.Engine.{Engine, published}
use go_web_service.Database.Engine.Commands.{command, command-ok}
use go_web_service.Blobfs.{FileTree, FileRow}
use go_web_service.Document.Store.{on_tree}
use go_web_service.Document.Store.Directories.Commands.{on_tree-eq-ok}
use go_web_service.Organization.Logos.{active_logo, attach, raise_uploaded}
use go_web_service.Organization.Logos.Commands.{
  IsActivated, attach-ok, uploaded-ok, uploaded_event, raised-then,
}
use go_web_service.Organization.Logos.Seeds.{attach_seed, attach_unless, seed_body}

module _ {Tree : Type 0} (fs : FileTree Tree) where
  attach_seed-IsActivated :
      (organization_id : String) (f : FileRow) (db : Database Tree) {r : String × Bool}
      {d' : Draft (Database Tree)}
      → attach_seed fs organization_id f (record { db = db; queue = [] }) ≡ ok (r, d')
      → IsActivated fs organization_id f db (published d')
  unfolding attach_seed
  attach_seed-IsActivated organization_id f db {r} {d'} h =
      let start : Draft (Database Tree) = record { db = db; queue = [] } in
      let (_, db1, attached, raising) =
        on_db-then-ok (attach fs organization_id f.id) start
          (λ _. raise_uploaded organization_id f >>= λ _. pure (f.id, true)) h in
      let (unbound, inactive, is_attached) = attach-ok fs organization_id f.id db attached in
      let (d1, raised, last) =
        raised-then (raise_uploaded organization_id f) (f.id, true)
          (record { db = db1; queue = [] }) raising in
      let (size, etag, has_size, has_etag, drafted) =
        uploaded-ok fs organization_id f (record { db = db1; queue = [] }) raised in
      let same : published d'
          ≡ published
              (record { db = db1; queue = uploaded_event organization_id f size etag ∷ [] }) =
        ap published (last ∙ drafted) in
      record {
        others = db.images;
        none_active = inactive;
        unbound = unbound;
        images =
            ap (λ (y : Database Tree). y.images) same
            ∙ ap (λ (y : Database Tree). y.images) is_attached;
        size = size;
        etag = etag;
        has_size = has_size;
        has_etag = has_etag;
        outbox =
            ap (λ (y : Database Tree). y.outbox) same
            ∙ ap
                (λ (y : Database Tree). y.outbox ++ uploaded_event organization_id f size etag ∷ [])
                is_attached;
      }

  attach_unless-IsActivated :
      (organization_id : String) (f : FileRow) (x : Result FileRow) (db : Database Tree)
      {active : String} {d' : Draft (Database Tree)}
      → attach_unless fs organization_id f x (record { db = db; queue = [] })
        ≡ ok ((active, true), d')
      → IsActivated fs organization_id f db (published d')
  unfolding attach_unless
  attach_unless-IsActivated organization_id f (ok current) db h = absurd (ground (arith, h))
  attach_unless-IsActivated organization_id f (err e) db h =
      elim (Bool-cases (is e Sentinel.no_rows)) [
        | inl missing ↦ attach_seed-IsActivated organization_id f db (rw missing at h)
        | inr other ↦ absurd (ground (arith, h, other))
      ]

  module _ (en : Engine Tree) where
    -- A seed's activation that attached the file leaves what an upload's does.
    pub seed_body-IsActivated :
        (organization_id : String) (f : FileRow) (db : Database Tree) {active : String}
        {db' : Database Tree}
        → command en (seed_body fs organization_id f) db ≡ (ok (active, true), db')
        → (t : Tree) × (fs.hold_file f.id db.tree ≡ ok (tt, t))
          × IsActivated fs organization_id f (record db { tree = t }) db'
    unfolding seed_body
    seed_body-IsActivated organization_id f db {db' = db'} h =
        let (d, ran, stands) = command-ok en (seed_body fs organization_id f) db h in
        let (_, db1, held, attaching) =
          on_db-then-ok (on_tree (fs.hold_file f.id)) (record { db = db; queue = [] })
            (λ _ s. attach_unless fs organization_id f (active_logo fs organization_id s.db) s)
            ran in
        let (t, held_at, is_held) = on_tree-eq-ok (fs.hold_file f.id) db held in
        (
          t,
          held_at,
          subst (λ (y : Database Tree). IsActivated fs organization_id f y db') is_held
              (subst (λ (y : Database Tree). IsActivated fs organization_id f db1 y) (sym stands)
                (attach_unless-IsActivated organization_id f (active_logo fs organization_id db1)
                  db1 attaching)),
        )
