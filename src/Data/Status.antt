-- ===== src/Data/Status.antt =====
-- data/status.go: the problem matcher over the errors that every domain's store returns.
-- The texts of the libraries' sentinels are not in the repository: they are the parameter
-- `sentinel_text`. An unmatched error is `none`, which the SDK's error writer answers 500.
pub mod Laws
pub mod Detail
pub mod Tests
use Prim.Native.String
use text.Mathlib.Text.{starts_with}
use go_web_service.Prelude.{
  ℕ, String, Bool, true, false, not, Option, none, some, List, [], ◌∷◌, any, if◌then◌else◌, Error,
  Sentinel, Typed, is, as_typed,
}

-- web.Problem, as the matchers fill it.
pub record Problem : Type 0 where
  pub status : ℕ
  pub detail : String

abbrev pub detail_name_taken : String
detail_name_taken = "an entry with that name already exists"

abbrev pub detail_not_empty : String
detail_not_empty = "the directory is not empty"

abbrev pub detail_deleting : String
detail_deleting = "the directory is being deleted"

abbrev pub detail_file_deleting : String
detail_file_deleting = "the file is being deleted"

abbrev pub detail_referenced : String
detail_referenced = "the file is referenced"

abbrev pub detail_conflict : String
detail_conflict = "the request conflicts with the current state"

-- The texts of data/storage.go's ErrBodyRead and ErrBodyTimeout.
abbrev pub body_read_text : String
body_read_text = "the request body could not be read"

abbrev pub body_timeout_text : String
body_timeout_text = "the request body did not arrive in time"

unfoldable pub conflict : String → Problem
conflict detail = record { status = 409; detail = detail }

abbrev pub bare : ℕ → Problem
bare status = record { status = status; detail = "" }

-- One `case` of the switch: some listed sentinel is in the error's tree.
abbrev pub is_any : Error → List Sentinel → Bool
is_any e ss = any (is e) ss

-- strings.TrimPrefix
unfoldable pub trim_prefix : String → String → String
trim_prefix text prefix =
    if starts_with text prefix
    then String.slice text (String.len prefix) (String.len text)
    else text

abbrev pub is_cursor : Typed → Bool
is_cursor Typed.cursor_error = true
is_cursor _ = false

abbrev pub is_field : Typed → Bool
is_field Typed.unknown_field = true
is_field _ = false

abbrev pub is_operator : Typed → Bool
is_operator Typed.unknown_operator = true
is_operator _ = false

abbrev pub is_value : Typed → Bool
is_value Typed.invalid_value = true
is_value _ = false

abbrev pub is_name : Typed → Bool
is_name Typed.name_error = true
is_name _ = false

abbrev pub is_id : Typed → Bool
is_id Typed.id_error = true
is_id _ = false

-- The `errors.As(err, &deleting) && !deleting.Directory` of the switch: the first DeletingError of
-- the tree is a file's.
abbrev pub is_deleting_error : Typed → Bool
is_deleting_error (Typed.deleting_error _) = true
is_deleting_error _ = false

abbrev pub names_file : Option (Typed × String) → Bool
names_file (some (Typed.deleting_error directory, _)) = not directory
names_file _ = false

abbrev pub is_file_deleting : Error → Bool
is_file_deleting e = names_file (as_typed is_deleting_error e)

-- The sentinels whose own text is the detail of a refusal with no typed error, in order.
abbrev pub request_sentinels : List Sentinel
request_sentinels =
    Sentinel.invalid_name ∷ Sentinel.invalid_path ∷ Sentinel.invalid_key ∷ Sentinel.invalid_id
    ∷ Sentinel.root_directory ∷ Sentinel.directives ∷ []

module _ (sentinel_text : Sentinel → String) where
  -- The loop of requestDetail's default case.
  unfoldable pub first_text : Error → List Sentinel → String
  first_text e [] = ""
  first_text e (s ∷ ss) = let rest = first_text e ss in if is e s then sentinel_text s else rest

  -- The switch of requestDetail: the first typed error that the tests find, tried in order.
  unfoldable pub typed_text : Error → List (Typed → Bool) → String
  typed_text e [] = first_text e request_sentinels
  typed_text e (p ∷ ps) =
      let rest = typed_text e ps in elim (as_typed p e) [ none ↦ rest | some (_, text) ↦ text ]

  unfoldable pub request_detail : Error → String
  unfolding trim_prefix typed_text first_text
  request_detail e =
      let text =
        typed_text e (is_cursor ∷ is_field ∷ is_operator ∷ is_value ∷ is_name ∷ is_id ∷ []) in
      trim_prefix (trim_prefix text "blobfs: ") "query: "

  -- The tail of the switch: the database's errors, below the stores' own.
  unfoldable pub database_status : Error → Option Problem
  database_status e =
      if is e Sentinel.directives
      then some (record { status = 400; detail = request_detail e })
      else if is e Sentinel.no_rows
      then some (bare 404)
      else if is_any e (Sentinel.unique_violation ∷ Sentinel.foreign_key_violation ∷ [])
      then some (conflict detail_conflict)
      else if is e Sentinel.version_mismatch
      then some (bare 412)
      else if is_any e
          (Sentinel.database_not_ready ∷ Sentinel.connection_failed ∷ Sentinel.unexpected_eof ∷ [])
      then some (bare 503)
      else none

  -- Status: blobfs's and the object store's errors first.
  unfoldable pub status : Error → Option Problem
  unfolding database_status conflict
  status e =
      if is e Sentinel.body_read
      then some (record { status = 400; detail = body_read_text })
      else if is e Sentinel.body_timeout
      then some (record { status = 408; detail = body_timeout_text })
      else if is_any e (
          Sentinel.invalid_name ∷ Sentinel.invalid_path ∷ Sentinel.invalid_key ∷ Sentinel.invalid_id
          ∷ Sentinel.root_directory ∷ [])
      then some (record { status = 400; detail = request_detail e })
      else if is_any e (Sentinel.not_found ∷ Sentinel.object_not_found ∷ [])
      then some (bare 404)
      else if is_any e (Sentinel.name_taken ∷ Sentinel.id_taken ∷ [])
      then some (conflict detail_name_taken)
      else if is e Sentinel.not_empty
      then some (conflict detail_not_empty)
      else if is e Sentinel.referenced
      then some (conflict detail_referenced)
      else if is_file_deleting e
      then some (conflict detail_file_deleting)
      else if is e Sentinel.deleting
      then some (conflict detail_deleting)
      else if is_any e (Sentinel.not_deleting ∷ Sentinel.invalid_transition ∷ Sentinel.cycle ∷ [])
      then some (conflict detail_conflict)
      else if is e Sentinel.too_large
      then some (bare 413)
      else if is_any e
          (Sentinel.container_not_found ∷ Sentinel.store_not_ready ∷ Sentinel.unavailable ∷ [])
      then some (bare 503)
      else database_status e
