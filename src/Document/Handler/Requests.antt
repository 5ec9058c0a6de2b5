-- ===== src/Document/Handler/Requests.antt =====
-- What a move's request leaves of the document roots.
use go_web_service.Prelude.{
  ℕ, String, Bool, Option, [], ◌∷◌, ◌==◌, Bool-cases, inl, inr, Error, Result, ok, err,
  Option-cases, result_cases, subst, sym, ◌≡◌,
}
use go_web_service.Sdk.{Guarded}
use go_web_service.Database.{Database}
use go_web_service.Database.Engine.{Engine}
use go_web_service.Blobfs.{FileTree}
use go_web_service.Document.Entities.{MoveDirectory, root_alias, validate_move_directory}
use go_web_service.Document.Service.{move_document_directory}
use go_web_service.Document.Store.Directories.{move_directory}
use go_web_service.Document.Store.Directories.Invariant.{HasRoots, move, run-HasRoots}
use go_web_service.Document.Handler.{PathIds, move_inputs, handle_move_directory}

module _ {Tree : Type 0} (fs : FileTree Tree) (en : Engine Tree) (is_uuid : String → Bool)
    (refuse_name : String → Option Error) where
  moved-HasRoots :
      (org id : String) (v : ℕ) (m : MoveDirectory) (db : Database Tree)
      → HasRoots fs en db
      → HasRoots fs en (move_document_directory fs en is_uuid refuse_name org id v m db).1
  unfolding move_document_directory move_directory
  moved-HasRoots org id v m db t = elim (Bool-cases (id == root_alias)) [
    | inl alias ↦ rw (alias) t
    | inr other ↦ elim (Option-cases (validate_move_directory is_uuid refuse_name m)) [
      | inl accepted ↦ rw (other, accepted) (run-HasRoots fs en (move org id v m ∷ []) db t)
      | inr (e, refused) ↦ rw (other, refused) t
    ]
  ]

  read-moved :
      (p : PathIds) (version : Result ℕ) (body : Result MoveDirectory) (db : Database Tree)
      {org : String} {g : Guarded MoveDirectory}
      → move_inputs p version body ≡ ok (org, g)
      → handle_move_directory fs en is_uuid refuse_name p version body db
        ≡ move_document_directory fs en is_uuid refuse_name org g.id g.version g.body db
  unfolding handle_move_directory
  read-moved p version body db h = cc

  unread :
      (p : PathIds) (version : Result ℕ) (body : Result MoveDirectory) (db : Database Tree)
      {e : Error}
      → move_inputs p version body ≡ err e
      → handle_move_directory fs en is_uuid refuse_name p version body db ≡ (err e, db)
  unfolding handle_move_directory
  unread p version body db h = cc

  -- Whatever a request to move a directory carries, refused reads of it among them, an organization
  -- keeps at most one document root and a root one organization.
  handle_move_directory-HasRoots :
      (p : PathIds) (version : Result ℕ) (body : Result MoveDirectory) (db : Database Tree)
      → HasRoots fs en db
      → HasRoots fs en (handle_move_directory fs en is_uuid refuse_name p version body db).1
  handle_move_directory-HasRoots p version body db t =
      elim (result_cases (move_inputs p version body)) [
        | inl ((org, g), read) ↦
            subst (λ x. HasRoots fs en x.1) (sym (read-moved p version body db read))
              (moved-HasRoots org g.id g.version g.body db t)
        | inr (e, refused) ↦
            subst (λ x. HasRoots fs en x.1) (sym (unread p version body db refused)) t
      ]
