-- ===== src/Organization/Logos/Seeds/Settling.antt =====
-- What a seed of a logo that counts settled.
use go_web_service.Prelude.{
  String, Bool, true, false, Bool-cases, ◌≡◌, ap, ◌==◌, arith, Option, none, some, Error, Sentinel,
  Result, ok, err, is, inl, inr,
}
use go_web_service.Database.{Database}
use go_web_service.Database.Engine.{Engine}
use go_web_service.Blobfs.{FileTree, FileRow}
use go_web_service.Blobfs.Protocols.{Protocols}
use go_web_service.Organization.Logos.{active_logo, removal_error}
use go_web_service.Organization.Logos.Seeds.{
  abandoned_seed, unseeded, retire, lost_to, settle_seed, violates,
}

unseeded-false : (failure : Option Error) → unseeded failure ≡ ok true → ⊥
unseeded-false none h = ground (arith, h)
unseeded-false (some e) h = cc

module _ {Tree : Type 0} (fs : FileTree Tree) where
  module _ (en : Engine Tree) where
    module _ (pr : Protocols (Database Tree)) where
      retire-false :
          (f : FileRow) (stored : Bool) (failure : Option Error) (db : Database Tree)
          {db' : Database Tree}
          → retire fs en pr f stored failure db ≡ (ok true, db')
          → ⊥
      unfolding retire
      retire-false f false failure db h =
          unseeded-false failure (ap (λ (r : Result Bool × Database Tree). r.0) h)
      retire-false f true failure db h =
          unseeded-false
            (abandoned_seed failure (removal_error (pr.remove_file_id f.id (some f.version) db).0))
            (ap (λ (r : Result Bool × Database Tree). r.0) h)

      lost_to-false :
          (f : FileRow) (stored : Bool) (x : Result FileRow) (db : Database Tree)
          {db' : Database Tree}
          → lost_to fs en pr f stored x db ≡ (ok true, db')
          → ⊥
      unfolding lost_to
      lost_to-false f stored (err e) db h = absurd (ground (arith, h))
      lost_to-false f stored (ok current) db h = elim (Bool-cases (current.id == f.id)) [
        | inl won ↦ absurd (ground (arith, h, won))
        | inr lost ↦ retire-false f stored none db (rw lost at h)
      ]

      module _ (between after : Database Tree → Database Tree) where
        failed-false :
            (organization_id : String) (f : FileRow) (stored : Bool) (e : Error)
            (db : Database Tree) {db' : Database Tree}
            → settle_seed fs en pr between after organization_id f stored (err e, db)
              ≡ (ok true, db')
            → ⊥
        unfolding settle_seed
        failed-false organization_id f stored e db h = elim (Bool-cases (is e Sentinel.deleting)) [
          | inl going ↦
              absurd (ground (arith, ap (λ (r : Result Bool × Database Tree). r.0) h, going))
          | inr a ↦ elim (Bool-cases (violates "uq_organization_image_file" e)) [
            | inl bound ↦
                absurd (ground (arith, ap (λ (r : Result Bool × Database Tree). r.0) h, a, bound))
            | inr b ↦ elim (Bool-cases (violates "ux_organization_image_active" e)) [
              | inl lost ↦
                  lost_to-false f stored (active_logo fs organization_id (after db)) (after db)
                    (rw (settle_seed, a, b, lost) at h)
              | inr c ↦ retire-false f stored (some e) db (rw (settle_seed, a, b, c) at h)
            ]
          ]
        ]

        pub settle-true :
            (organization_id : String) (f : FileRow) (stored : Bool)
            (x : Result (String × Bool) × Database Tree) {db' : Database Tree}
            → settle_seed fs en pr between after organization_id f stored x ≡ (ok true, db')
            → (active : String) × (x ≡ (ok (active, true), db'))
        unfolding settle_seed
        settle-true organization_id f stored (err e, db) h =
            absurd (failed-false organization_id f stored e db h)
        settle-true organization_id f stored (ok (active, attached), db) h =
            elim (Bool-cases (active == f.id)) [
              | inl own ↦ (active, ground (arith, h, own))
              | inr other ↦ absurd (retire-false f stored none db (rw other at h))
            ]
