-- ===== src/Organization/Logos/Commands.antt =====
-- What the activation of a logo leaves.
use go_web_service.Prelude.{
  ℕ, String, true, false, ◌≡◌, refl, ap, ◌∙◌, List, [], ◌∷◌, ◌++◌, any, arith, Option, some,
  Option-cases, Result, ok, err, result_cases, inl, inr, ◌==◌,
}
use go_web_service.Database.{Database, Image}
use go_web_service.Database.Events.{Event, EventData}
use go_web_service.Database.Transactions.{Draft, Emitting, ◌>>=◌, pure, on_db}
use go_web_service.Database.Transactions.Steps.{on_db-then-ok}
use go_web_service.Database.Engine.{Engine, published}
use go_web_service.Database.Engine.Commands.{command, command-ok}
use go_web_service.Blobfs.{FileTree, FileRow}
use go_web_service.Document.Store.{on_tree}
use go_web_service.Document.Store.Directories.Commands.{event, on_tree-eq-ok}
use go_web_service.Organization.Schema.{find_row}
use go_web_service.Organization.Logos.{
  is_active_of, with_images, detach, raise_uploaded, active_logo, attach, release, replace,
  activate_body,
}

abbrev pub uploaded_event : String → FileRow → ℕ → String → Event
uploaded_event organization_id f size etag = event f.id (
    EventData.logo_uploaded (record {
      file_id = f.id;
      organization_id = organization_id;
      content_type = f.content_type;
      size = size;
      etag = etag;
      version = f.version;
    }))

raised-by :
    {S A : Type 0} (y : Result (Unit {0} × S)) (x : A) {r : A} {s : S}
    → (elim y as (λ _. Result (A × S)) [ err e ↦ err e | ok (_, s') ↦ ok (x, s') ]) ≡ ok (r, s)
    → (s1 : S) × (y ≡ ok (tt, s1)) × (s ≡ s1)
raised-by (ok (u, s')) x h = (s', refl, ground arith)
raised-by (err e) x h = cc

pub raised-then :
    {S A : Type 0} (m : S → Result (Unit {0} × S)) (x : A) (s0 : S) {r : A} {s : S}
    → (m >>= λ _. pure x) s0 ≡ ok (r, s)
    → (s1 : S) × (m s0 ≡ ok (tt, s1)) × (s ≡ s1)
raised-then m x s0 h = raised-by (m s0) x h

module _ {Tree : Type 0} (fs : FileTree Tree) where
  pub attach-ok :
      (organization_id file_id : String) (db : Database Tree) {db' : Database Tree}
      → attach fs organization_id file_id db ≡ ok (tt, db')
      → (any (λ i. i.file_id == file_id) db.images ≡ false)
        × (any (is_active_of organization_id) db.images ≡ false)
        × (db'
            ≡ with_images db (
                db.images
                ++ record { organization_id = organization_id; file_id = file_id; active = true }
                  ∷ []))
  unfolding attach
  attach-ok organization_id file_id db h =
      elim (Option-cases (find_row organization_id db.organizations)) [
        | inl absent ↦ absurd (ground arith)
        | inr (r, found) ↦ (ground arith, ground arith, ground arith)
      ]

  replace-keeps :
      (x : Result FileRow) (db : Database Tree) {r : Option FileRow} {db' : Database Tree}
      → replace fs x db ≡ ok (r, db')
      → db'.outbox ≡ db.outbox
  unfolding replace release detach
  replace-keeps (err e) db h = ground arith
  replace-keeps (ok current) db h = elim (result_cases (fs.delete_file current.id db.tree)) [
    | inl ((f, t), e) ↦ ground arith
    | inr (e, failed) ↦ absurd (ground arith)
  ]

  pub uploaded-ok :
      (organization_id : String) (f : FileRow) (d : Draft (Database Tree))
      {d' : Draft (Database Tree)}
      → raise_uploaded organization_id f d ≡ ok (tt, d')
      → (size : ℕ) × (etag : String) × (f.size ≡ some size)
        × (f.etag ≡ some etag)
        × (d' ≡ record d { queue = d.queue ++ uploaded_event organization_id f size etag ∷ [] })
  unfolding raise_uploaded
  uploaded-ok organization_id f d h = elim (Option-cases f.size) [
    | inl missing ↦ absurd (ground arith)
    | inr (size, is_size) ↦ elim (Option-cases f.etag) [
      | inl missing ↦ absurd (ground arith)
      | inr (etag, is_etag) ↦ (size, etag, is_size, is_etag, ground arith)
    ]
  ]

  -- What an activation that returned left.
  pub record IsActivated (organization_id : String) (f : FileRow) (db db' : Database Tree)
      : Type 0 where
    pub others : List Image
    pub none_active : any (is_active_of organization_id) others ≡ false
    pub unbound : any (λ i. i.file_id == f.id) others ≡ false
    pub images :
        db'.images
        ≡ others ++ record { organization_id = organization_id; file_id = f.id; active = true } ∷ []
    pub size : ℕ
    pub etag : String
    pub has_size : f.size ≡ some size
    pub has_etag : f.etag ≡ some etag
    pub outbox : db'.outbox ≡ db.outbox ++ uploaded_event organization_id f size etag ∷ []

  module _ (en : Engine Tree) where
    -- An activation that returns leaves the completed file as the organization's one active image, and
    -- bound by no other, and emits one event, the upload's: none for the logo that it replaces.
    pub activate-ok :
        (organization_id : String) (f : FileRow) (db : Database Tree) {r : Option FileRow}
        {db' : Database Tree}
        → command en (activate_body fs organization_id f) db ≡ (ok r, db')
        → IsActivated organization_id f db db'
    unfolding activate_body
    activate-ok organization_id f db {r} {db'} h =
        let (d, ran, stands) = command-ok en (activate_body fs organization_id f) db h in
        let start : Draft (Database Tree) = record { db = db; queue = [] } in
        let raise_it : Option FileRow → Emitting (Database Tree) (Option FileRow) =
          λ x. raise_uploaded organization_id f >>= λ _. pure x in
        let bind_it : Option FileRow → Emitting (Database Tree) (Option FileRow) =
          λ x. on_db (attach fs organization_id f.id) >>= λ _. raise_it x in
        let swap : Emitting (Database Tree) (Option FileRow) =
          on_db (λ s. replace fs (active_logo fs organization_id s) s) >>= bind_it in
        let (_, db1, held, swapping) =
          on_db-then-ok (on_tree (fs.hold_file f.id)) start (λ _. swap) ran in
        let (t, _, is_held) = on_tree-eq-ok (fs.hold_file f.id) db held in
        let (x, db2, swapped, binding) =
          on_db-then-ok (λ s. replace fs (active_logo fs organization_id s) s)
            (record { db = db1; queue = [] }) bind_it swapping in
        let (_, db3, attached, raising) =
          on_db-then-ok (attach fs organization_id f.id) (record { db = db2; queue = [] })
            (λ _. raise_it x) binding in
        let (unbound, inactive, is_attached) = attach-ok organization_id f.id db2 attached in
        let (d1, raised, last) =
          raised-then (raise_uploaded organization_id f) x (record { db = db3; queue = [] })
            raising in
        let (size, etag, has_size, has_etag, drafted) =
          uploaded-ok organization_id f (record { db = db3; queue = [] }) raised in
        let same : db' ≡ published d1 = stands ∙ ap published last in
        record {
          others = db2.images;
          none_active = inactive;
          unbound = unbound;
          images =
              ap (λ (y : Database Tree). y.images) (same ∙ ap published drafted)
              ∙ ap (λ (y : Database Tree). y.images) is_attached;
          size = size;
          etag = etag;
          has_size = has_size;
          has_etag = has_etag;
          outbox =
              ap (λ (y : Database Tree). y.outbox) (same ∙ ap published drafted)
              ∙ ap (λ o. o ++ uploaded_event organization_id f size etag ∷ [])
                  (ap (λ (y : Database Tree). y.outbox) is_attached
                    ∙ replace-keeps (active_logo fs organization_id db1) db1 swapped
                    ∙ ap (λ (y : Database Tree). y.outbox) is_held);
        }
