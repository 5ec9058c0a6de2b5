-- ===== src/Document/Tests.antt =====
-- The document operations on an organization with a root and one directory.
use go_web_service.Prelude.{
  String, Bool, true, false, ◌≡◌, refl, Option, if◌then◌else◌, ◌==◌, none, some, List, [], ◌∷◌, ok,
  pos, negsuc, is,
}
use go_web_service.Database.{Database, OwnerRow}
use go_web_service.Database.Engine.Sample.{engine}
use go_web_service.Blobfs.Sample.{tree, directory_row}
use go_web_service.Data.Storage.{serve, served}
use go_web_service.Organization.Entities.{Organization}
use go_web_service.Organization.Schema.{find_row}
use go_web_service.Blobfs.{DirectoryRow}
use go_web_service.Data.Directives.{RequestQuery, Operators, Listing, read_listing, paging}
use go_web_service.Document.Store.Present.{present, directory_of}
use go_web_service.Document.Store.Listings.{
  list_directories, list_scope, listing, listed, presented,
}
use go_web_service.Document.Store.Listings.Commands.{IsPage, list_directories-IsPage}
use go_web_service.Document.Entities.{Directory, DirectoryStatus, MoveDirectory, MoveFile}
use go_web_service.Document.Seeds.{ensure_body, raise_ensured, rerun, seed_directory}
use go_web_service.Document.Seeds.Events.{IsEnsured, IsStart, seed_directory-IsEnsured}
use go_web_service.Document.Service.{delete_route}
use go_web_service.Document.Service.Deletes.{IsAnswered, delete_route-IsAnswered}
use go_web_service.Document.Store.{
  document_root, organization_exists, within, scope, file_scope, bind, delete_directory_row,
}
use go_web_service.Document.Store.Roots.{raise_created, root_body, settle_root, ensure_root}
use go_web_service.Document.Store.Roots.Laws.{ensure_root-ok}
use go_web_service.Document.Store.Directories.{
  move_body, move_directory, delete_body, delete_directory, mark_body, mark_branch, raise_marked,
}
use go_web_service.Document.Store.Directories.Commands.{
  IsMoved, IsDeleted, move_directory-ok, delete_directory-ok,
}
use go_web_service.Document.Store.Directories.Marks.{IsMarked, mark_branch-ok}
use go_web_service.Document.Store.Directories.Invariant.{
  Change, ensure, create, remove, HasRoots, run, run-HasRoots,
}
use go_web_service.Document.Store.Files.{Content, content, move_file, move_file_body}
use go_web_service.Document.Store.Files.Commands.{
  IsContent, IsFileMoved, content-IsContent, move_file-ok,
}

abbrev organization : Organization
organization = record {
  id = "o";
  parent_id = none;
  code = "o";
  name = "O";
  version = 1;
  created_at = 0;
  updated_at = 0;
}

abbrev with_owners : List OwnerRow → Database Bool
with_owners owners = record {
  organizations = organization ∷ [];
  images = [];
  owners = owners;
  tree = false;
  outbox = [];
}

abbrev base : Database Bool
base = with_owners (record { directory_id = "root-1"; organization_id = "o" } ∷ [])

abbrev to_root : MoveDirectory
to_root = record { parent_id = "root"; name = "moved" }

move_directory-ok_example :
    IsMoved tree engine "o" "sub" 1 to_root base
      (record { id = "sub"; version = 2 })
      (move_directory tree engine "o" "sub" 1 to_root base).1
unfolding move_directory move_body scope within document_root
move_directory-ok_example = move_directory-ok tree engine "o" "sub" 1 to_root base refl

delete_directory-ok_example :
    IsDeleted tree engine "o" "root" 1 base (delete_directory tree engine "o" "root" 1 base).1
unfolding delete_directory delete_body scope within document_root delete_directory_row
delete_directory-ok_example = delete_directory-ok tree engine "o" "root" 1 base refl

mark_branch-ok_example :
    IsMarked tree "o" "sub" 1 base "sub" (mark_branch tree engine "o" "sub" 1 base).1
unfolding mark_branch mark_body raise_marked scope within document_root
mark_branch-ok_example = mark_branch-ok tree "o" engine "sub" 1 base refl

ensure_root-ok_example :
    document_root "o" (ensure_root tree engine (λ db. db) (λ db. db) "o" none (with_owners [])).1
    ≡ ok "o"
unfolding ensure_root settle_root root_body raise_created bind document_root organization_exists
    find_row is
ensure_root-ok_example =
    ensure_root-ok tree engine (λ db. db) (λ db. db) "o" none (with_owners []) refl

-- A root is ensured twice, and removed.
abbrev changes : List Change
changes = ensure "o" none ∷ ensure "o" none ∷ create "o" "o" "sub" ∷ remove "o" "root" 2 ∷ []

run-HasRoots_example : HasRoots tree engine (run tree engine changes (with_owners []))
run-HasRoots_example = run-HasRoots tree engine changes (with_owners []) tt

abbrev parse_bool : String → Option Bool
parse_bool s = if s == "true" then some true else none

delete_route-IsAnswered_example :
    IsAnswered tree engine parse_bool "o" "sub" 1 "true" base 0
      (delete_route tree engine parse_bool "o" "sub" 1 "true" base 0)
delete_route-IsAnswered_example =
    delete_route-IsAnswered tree engine parse_bool "o" "sub" 1 "true" base 0

abbrev ops : Operators
ops = record { op_eq = "eq"; op_in = "in"; op_is_null = "isnull"; op_is_not_null = "isnotnull" }

abbrev first_page : RequestQuery
first_page = record { sort = []; filters = []; cursor = ""; page = pos 1; size = pos 20 }

-- The page of a directory with one directory in it.
abbrev children : Listing DirectoryRow (Database Bool)
children = record {
  list = λ id d n size db.
      ok (record {
        items = directory_row "docs" false ∷ [];
        more = false;
        next = "";
        total = pos 1;
      });
  continue =
      λ id d cursor size db. ok (record { items = []; more = false; next = ""; total = pos 1 });
}

abbrev docs : Directory
docs = record {
  id = "docs";
  parent_id = some "top";
  name = "docs";
  path = "";
  status = DirectoryStatus.active;
  version = 2;
}

list_directories-IsPage_example :
    IsPage tree ops
      (negsuc 0)
      "fresh"
      children
      (λ root d. directory_of d root)
      "o"
      "root"
      first_page
      base
      (docs ∷ [], record { more = false; next = ""; total = some (pos 1) })
unfolding list_directories list_scope listing listed presented present directory_of scope within
    document_root read_listing paging
list_directories-IsPage_example =
    list_directories-IsPage tree ops (negsuc 0) "fresh" "o" "root" first_page base children refl

abbrev text : Content
text = record {
  name = "a.txt";
  object = record { content_type = "text/plain"; size = 3; etag = "etag"; modified_at = 0 };
  key = "key";
}

content-IsContent_example : IsContent tree "o" "f" base text
unfolding content file_scope within document_root serve served
content-IsContent_example = content-IsContent tree "o" "f" base refl

abbrev file_to_root : MoveFile
file_to_root = record { directory_id = "root"; name = "b.txt" }

move_file-ok_example :
    IsFileMoved tree "o" "f" 2 file_to_root base
      (record { id = "f"; version = 2 })
      (move_file tree engine "o" "f" 2 file_to_root base).1
unfolding move_file move_file_body file_scope within document_root
move_file-ok_example = move_file-ok tree "o" engine "f" 2 file_to_root base refl

seed_directory-IsEnsured_example :
    (start : Database Bool) × IsStart tree engine "o" "root-1"
      (λ db. db)
      "root-1"
      "docs"
      "d"
      base
      start
    × IsEnsured tree engine "o" "root-1" "root-1" "docs" "d"
        (directory_row "docs" false, true)
        start
        (seed_directory tree engine "o" "root-1" (λ db. db) "root-1" "docs" "d" base).1
unfolding seed_directory rerun ensure_body raise_ensured
seed_directory-IsEnsured_example =
    seed_directory-IsEnsured tree engine "o" "root-1" (λ db. db) "root-1" "docs" "d" base refl
