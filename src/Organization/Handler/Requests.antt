-- ===== src/Organization/Handler/Requests.antt =====
-- Whatever requests arrive: what each leaves.
use go_web_service.Prelude.{
  ℕ, String, Bool, ◌≡◌, refl, ap, subst, ◌⊎◌, inl, inr, Option, none, some, [], ◌∷◌, arith, Error,
  Result, ok, err,
}
use go_web_service.Sdk.{Guarded, command, precondition}
use go_web_service.Database.{Database}
use go_web_service.Database.Engine.Commands.{command-err}
use go_web_service.Database.Engine.Commands
use go_web_service.Organization.Backend.{Backend}
use go_web_service.Organization.Entities.{
  CreateOrganization, EditOrganization, TransferOrganization, Identity, validate_create,
  validate_edit, validate_transfer,
}
use go_web_service.Organization.Store.{
  create, create_body, edit, edit_body, transfer, transfer_body, delete, delete_body,
}
use go_web_service.Organization.Store.Invariant.{
  IsSound, create_organization, edit_organization, transfer_organization, delete_organization,
  run-IsSound, identity-err,
}
use go_web_service.Organization.Service
use go_web_service.Organization.Service.{accepted}
use go_web_service.Organization.Handler.{
  Request, Response, answered, changed, no_content, handle_create, handle_edit, handle_transfer,
  handle_delete, handle, create_request, edit_request, transfer_request, delete_request,
}

module _ {Tree : Type 0} (b : Backend Tree) where
  -- An operation's outcome: an error with nothing changed, or a value with the table kept.
  abbrev pub IsHandled : {A : Type 0} → Database Tree → Result A × Database Tree → Type 0
  IsHandled {A = A} db r =
      ((e : Error) × (r ≡ (err e, db))) ⊎ ((a : A) × (r.0 ≡ ok a) × IsSound b r.1)

  IsHandled-err :
      {A : Type 0} (e : Error) (db db' : Database Tree)
      → db' ≡ db
      → IsHandled {A = A} db (err e, db')
  IsHandled-err e db db' same = inl (e, λ i. (err e, same i))

  answered-IsHandled :
      {A : Type 0} (f : A → Response) (db : Database Tree) (r : Result A × Database Tree)
      → IsHandled db r
      → IsHandled db (answered f r)
  answered-IsHandled f db (err e, db') (inl (e', same)) =
      IsHandled-err e db db' (ap (λ (p : Result _ × Database Tree). p.1) same)
  answered-IsHandled f db (err e, db') (inr (a, same, sound)) = absurd (ground (arith, same))
  answered-IsHandled f db (ok a, db') (inl (e, same)) =
      absurd (ground (arith, ap (λ (p : Result _ × Database Tree). p.0) same))
  answered-IsHandled f db (ok a, db') (inr (a', same, sound)) = inr (f a, refl, sound)

  accepted-IsHandled :
      {A : Type 0} (fault : Option Error) (command : Database Tree → Result A × Database Tree)
      (db : Database Tree)
      → IsHandled db (command db)
      → IsHandled db (accepted fault command db)
  accepted-IsHandled none command db h = h
  accepted-IsHandled (some e) command db h = IsHandled-err e db db refl

  module _ (db : Database Tree) (t : IsSound b db) where
    create_by :
        (c : CreateOrganization) (x : Result Identity × Database Tree)
        → create b c db ≡ x
        → IsHandled db x
    unfolding create
    create_by c (ok i, db') h = inr (
      i,
      refl,
      subst (λ (y : Database Tree). IsSound b y) (ap (λ y. y.1) h)
          (run-IsSound b (create_organization c ∷ []) db t),
    )
    create_by c (err e, db') h =
        IsHandled-err e db db' (command-err b.engine (create_body b c) db h)

    edit_by :
        (id : String) (v : ℕ) (e : EditOrganization) (x : Result Identity × Database Tree)
        → edit b id v e db ≡ x
        → IsHandled db x
    unfolding edit
    edit_by id v e (ok i, db') h = inr (
      i,
      refl,
      subst (λ (y : Database Tree). IsSound b y) (ap (λ y. y.1) h)
          (run-IsSound b (edit_organization id v e ∷ []) db t),
    )
    edit_by id v e (err x, db') h = IsHandled-err x db db' (
        command-err b.engine (edit_body b id v e) db
          (identity-err b id (Commands.command b.engine (edit_body b id v e) db) h))

    transfer_by :
        (id : String) (v : ℕ) (m : TransferOrganization) (x : Result Identity × Database Tree)
        → transfer b id v m db ≡ x
        → IsHandled db x
    unfolding transfer
    transfer_by id v m (ok i, db') h = inr (
      i,
      refl,
      subst (λ (y : Database Tree). IsSound b y) (ap (λ y. y.1) h)
          (run-IsSound b (transfer_organization id v m ∷ []) db t),
    )
    transfer_by id v m (err x, db') h = IsHandled-err x db db' (
        command-err b.engine (transfer_body b id v m) db
          (identity-err b id (Commands.command b.engine (transfer_body b id v m) db) h))

    delete_by :
        (id : String) (v : ℕ) (x : Result (Unit {0}) × Database Tree)
        → delete b id v db ≡ x
        → IsHandled db x
    unfolding delete
    delete_by id v (ok i, db') h = inr (
      i,
      refl,
      subst (λ (y : Database Tree). IsSound b y) (ap (λ y. y.1) h)
          (run-IsSound b (delete_organization id v ∷ []) db t),
    )
    delete_by id v (err x, db') h =
        IsHandled-err x db db' (command-err b.engine (delete_body b id v) db h)

    module _ (is_uuid : String → Bool) where
      guarded_edit-IsHandled :
          (g : Result (Guarded EditOrganization)) → IsHandled db (handle_edit b is_uuid g db)
      unfolding handle_edit Service.edit_organization
      guarded_edit-IsHandled (err e) = IsHandled-err e db db refl
      guarded_edit-IsHandled (ok g) = answered-IsHandled changed db _ (
          accepted-IsHandled (validate_edit g.body) (edit b g.id g.version g.body) db
            (edit_by g.id g.version g.body (edit b g.id g.version g.body db) refl))

      guarded_transfer-IsHandled :
          (g : Result (Guarded TransferOrganization))
          → IsHandled db (handle_transfer b is_uuid g db)
      unfolding handle_transfer Service.transfer_organization
      guarded_transfer-IsHandled (err e) = IsHandled-err e db db refl
      guarded_transfer-IsHandled (ok g) = answered-IsHandled changed db _ (
          accepted-IsHandled (validate_transfer is_uuid g.body) (transfer b g.id g.version g.body)
            db (transfer_by g.id g.version g.body (transfer b g.id g.version g.body db) refl))

      guarded_delete-IsHandled :
          (g : Result (String × ℕ)) → IsHandled db (handle_delete b is_uuid g db)
      unfolding handle_delete
      guarded_delete-IsHandled (err e) = IsHandled-err e db db refl
      guarded_delete-IsHandled (ok (id, v)) =
          answered-IsHandled (λ _. no_content) db _ (delete_by id v (delete b id v db) refl)

      create-IsHandled :
          (path : String) (body : Result CreateOrganization)
          → IsHandled db (handle_create b is_uuid path body db)
      unfolding handle_create Service.create_organization
      create-IsHandled path (err e) = IsHandled-err e db db refl
      create-IsHandled path (ok c) = answered-IsHandled _ db _ (
          accepted-IsHandled (validate_create is_uuid c) (create b c) db
            (create_by c (create b c db) refl))

      -- From a sound table, whatever a request to change an organization carries, refused reads of
      -- its path, its If-Match header and its body among them: a response that is an error changed
      -- nothing, and one that is not left the table sound.
      pub handle-IsHandled : (r : Request) → IsHandled db (handle b is_uuid r db)
      unfolding handle
      handle-IsHandled (create_request path body) = create-IsHandled path body
      handle-IsHandled (edit_request id version body) =
          guarded_edit-IsHandled (command id version body)
      handle-IsHandled (transfer_request id version body) =
          guarded_transfer-IsHandled (command id version body)
      handle-IsHandled (delete_request id version) =
          guarded_delete-IsHandled (precondition id version)
