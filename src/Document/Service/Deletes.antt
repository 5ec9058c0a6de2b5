-- ===== src/Document/Service/Deletes.antt =====
-- What a mark nudges, and what a delete that is not a mark does not.
use go_web_service.Prelude.{
  ℕ, suc, String, ◌≡◌, refl, Bool, true, false, sym, subst, Option, Error, Result, ok, err,
}
use go_web_service.Database.{Database}
use go_web_service.Database.Engine.{Engine}
use go_web_service.Database.Engine.Commands.{command-err}
use go_web_service.Blobfs.{FileTree}
use go_web_service.Document.Store.Directories.{
  mark_body, mark_branch, delete_body, delete_directory,
}
use go_web_service.Document.Store.Directories.Commands.{IsDeleted, delete_directory-ok}
use go_web_service.Document.Store.Directories.Marks.{IsMarked, mark_branch-ok}
use go_web_service.Document.Service.{
  Deleted, no_content, accepted_at, nudged, removed, located, delete_branch, recursive_of,
  delete_route,
}

module _ {Tree : Type 0} (fs : FileTree Tree) (en : Engine Tree) (parse_bool : String → Option Bool)
    (organization_id id : String) (version : ℕ) (raw : String) (db : Database Tree) (n : ℕ) where
  -- What each answer of the delete route stands for.
  pub data IsAnswered : Result Deleted × Database Tree × ℕ → Type 0 where
    failed : (e : Error) → IsAnswered (err e, db, n)
    emptied :
        {db' : Database Tree}
        → recursive_of fs en parse_bool raw ≡ ok false
        → IsDeleted fs en organization_id id version db db'
        → IsAnswered (ok no_content, db', n)
    marked :
        {at : String} {db' : Database Tree}
        → recursive_of fs en parse_bool raw ≡ ok true
        → IsMarked fs organization_id id version db at db'
        → IsAnswered (ok (accepted_at at), db', suc n)

  removed-IsAnswered :
      (x : Result (Unit {0}) × Database Tree)
      → recursive_of fs en parse_bool raw ≡ ok false
      → x ≡ delete_directory fs en organization_id id version db
      → IsAnswered (removed n x)
  unfolding delete_directory
  removed-IsAnswered (ok u, db') plain h =
      emptied plain (delete_directory-ok fs en organization_id id version db (sym h))
  removed-IsAnswered (err e, db') plain h =
      subst (λ s. IsAnswered (err e, s, n))
        (sym (command-err en (delete_body fs organization_id id version) db (sym h))) (failed e)

  located-IsAnswered :
      (x : Result String × Database Tree)
      → recursive_of fs en parse_bool raw ≡ ok true
      → x ≡ mark_branch fs en organization_id id version db
      → IsAnswered (located (nudged n x))
  unfolding mark_branch
  located-IsAnswered (ok at, db') branch h =
      marked branch (mark_branch-ok fs organization_id en id version db (sym h))
  located-IsAnswered (err e, db') branch h =
      subst (λ s. IsAnswered (err e, s, n))
        (sym (command-err en (mark_body fs organization_id id version) db (sym h))) (failed e)

  route_by :
      (x : Result Bool)
      → recursive_of fs en parse_bool raw ≡ x
      → IsAnswered (elim x as (λ _. Result Deleted × Database Tree × ℕ) [
        | err e ↦ (err e, db, n)
        | ok false ↦ removed n (delete_directory fs en organization_id id version db)
        | ok true ↦ located (delete_branch fs en organization_id id version db n)
      ])
  unfolding delete_branch
  route_by (err e) h = failed e
  route_by (ok false) h = removed-IsAnswered _ h refl
  route_by (ok true) h = located-IsAnswered _ h refl

  -- The delete route answers an error with the database as it was and no nudge; 204 only without
  -- `recursive`, once the directory that the request names is gone, with no nudge; and 202 only with
  -- `recursive`, once that directory's branch is marked, with one nudge of the sweep.
  pub delete_route-IsAnswered :
      IsAnswered (delete_route fs en parse_bool organization_id id version raw db n)
  unfolding delete_route
  delete_route-IsAnswered = route_by (recursive_of fs en parse_bool raw) refl
