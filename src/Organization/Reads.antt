-- ===== src/Organization/Reads.antt =====
-- The reads of domain/organization: list and find of database.go, their methods of service.go, and
-- the routes of handler.go. The read view is the projection library's, a parameter; a request
-- carries what the web SDK's parses of its query and its path returned.
pub mod Lookup
use Prim.Native.String
use go_web_service.Prelude.{ℕ, ℤ, String, Option, List, if◌then◌else◌, ◌==◌, Result, ok, err}
use go_web_service.Data.Directives.{
  RequestQuery, Operators, Projection, Collection, Paging, read, paging,
}
use go_web_service.Data.Status.{trim_prefix}
use go_web_service.Organization.Entities.{invalid}

-- Organization, as the read contract presents it: a table's row with its path.
pub record Node : Type 0 where
  pub id : String
  pub parent_id : Option String
  pub code : String
  pub name : String
  pub version : ℕ
  pub created_at : ℕ
  pub updated_at : ℕ
  pub path : String

-- query.Projection with its read of one row by a field's value.
pub record View (S : Type 0) : Type 0 where
  pub rows : Projection Node S
  pub one : String → String → S → Result Node

-- web.Page, of a read's items.
pub record Page : Type 0 where
  pub items : List Node
  pub query : RequestQuery
  pub paging : Paging

-- The path that lookup reads.
unfoldable pub lookup_path : String → Result String
lookup_path path =
    if path == ""
    then err (invalid "lookup requires a path query parameter")
    else ok (String.◌++◌ "/" (trim_prefix path "/"))

-- What list returns of a read.
unfoldable pub read_items : ℤ → Result (Collection Node) → Result (List Node × Paging)
read_items no_total (err e) = err e
read_items no_total (ok c) = ok (c.items, paging no_total c)

module _ {S : Type 0} (ops : Operators) (no_total : ℤ) (v : View S) where
  -- list
  unfoldable pub list : RequestQuery → S → Result (List Node × Paging)
  list q s = read_items no_total (read ops v.rows q s)

  -- list of the handler
  unfoldable pub handle_list : Result RequestQuery → S → Result Page
  handle_list (err e) s = err e
  handle_list (ok q) s = elim (list q s) [
    | err e ↦ err e
    | ok (items, p) ↦ ok (record { items = items; query = q; paging = p })
  ]

module _ {S : Type 0} (v : View S) where
  -- Find
  unfoldable pub find_organization : String → S → Result Node
  find_organization id s = v.one "id" id s

  -- FindByPath
  unfoldable pub find_organization_by_path : String → S → Result Node
  find_organization_by_path path s = v.one "path" path s

  -- find of the handler
  unfoldable pub handle_find : Result String → S → Result Node
  handle_find (err e) s = err e
  handle_find (ok id) s = find_organization id s

  -- lookup
  unfoldable pub handle_lookup : String → S → Result Node
  handle_lookup path s = elim (lookup_path path) [
    | err e ↦ err e
    | ok p ↦ find_organization_by_path p s
  ]
