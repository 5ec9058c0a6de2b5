-- ===== src/Prelude/Results.antt =====
-- Go's errors as values, and the outcome of fallible code.
-- An error value is a tree: `fmt.Errorf` with one `%w` wraps one error, `errors.Join` and a format
-- with two `%w` hold two, and a library's typed error has a text of its own and may unwrap to
-- another. `errors.Is` and `errors.As` search the tree from the outside in, the first branch first.
use Prim.Native.String.{String}
use mathlib.Core.Path.{◌≡◌, refl}
use mathlib.Core.Bool.{Bool, true, false, ◌||◌}
use mathlib.Core.Logic.{◌⊎◌, inl, inr}
use mathlib.Core.Option.{Option, none, some}

-- The sentinel errors that the program compares with `errors.Is`, its own and the libraries'.
pub data Sentinel : Type 0 where
  -- the program's
  invalid_command transfer_cycle body_read body_timeout unknown_status unconfirmed : Sentinel
  -- blobfs
  invalid_name invalid_path invalid_key invalid_id root_directory : Sentinel
  not_found name_taken id_taken not_empty referenced deleting not_deleting : Sentinel
  invalid_transition cycle : Sentinel
  -- go-storage
  object_not_found too_large container_not_found store_not_ready unavailable : Sentinel
  -- sqlate and its query package
  directives unique_violation foreign_key_violation check_violation version_mismatch : Sentinel
  connection_failed : Sentinel
  -- go-database and its admin package
  database_not_ready bad_argument unknown_set unknown_state seed_disabled schema_conflict : Sentinel
  -- the standard library
  no_rows unexpected_eof deadline_exceeded : Sentinel

pub Sentinel-discrete : Discrete Sentinel
Sentinel-discrete = hlevel

-- The typed errors that the program looks for with `errors.As`.
pub data Typed : Type 0 where
  cursor_error unknown_field unknown_operator invalid_value name_error id_error : Typed
  -- blobfs.DeletingError, with its field Directory
  deleting_error : Bool → Typed
  -- sqlate.ConstraintError, with its fields Class and Constraint
  constraint_error : Sentinel → String → Typed
  -- web.UploadError, with its field Header
  upload_error : String → Typed
  -- net.Error, with what its method Timeout answers
  net_error : Bool → Typed

pub data Error : Type 0 where
  sentinel : Sentinel → Error
  plain : String → Error
  wrap : String → Error → Error
  join : Error → Error → Error
  typed : Typed → String → Error → Error

abbrev pub same : Sentinel → Sentinel → Bool
unfolding Sentinel-discrete
same a b = elim (Sentinel-discrete a b) [ yes _ ↦ true | no _ ↦ false ]

-- errors.Is
unfoldable pub is : Error → Sentinel → Bool
unfolding Sentinel-discrete
is (sentinel s) t = same s t
is (plain _) t = false
is (wrap _ e) t = is e t
is (join a b) t = is a t || is b t
is (typed _ _ e) t = is e t

-- errors.As, for the typed errors that the test accepts: the first one and its text.
unfoldable pub as_typed : (Typed → Bool) → Error → Option (Typed × String)
as_typed p (sentinel s) = none
as_typed p (plain _) = none
as_typed p (wrap _ e) = as_typed p e
as_typed p (join a b) =
    let second = as_typed p b in elim (as_typed p a) [ none ↦ second | some found ↦ some found ]
as_typed p (typed t text e) =
    let inner = as_typed p e in elim (p t) [ true ↦ some (t, text) | false ↦ inner ]

-- errors.Join, where none is nil.
abbrev pub join_errors : Option Error → Option Error → Option Error
join_errors none none = none
join_errors none (some e) = some e
join_errors (some e) none = some e
join_errors (some e) (some f) = some (join e f)

pub data Result {ℓ} (A : Type ℓ) : Type ℓ where
  ok : A → Result A
  err : Error → Result A

abbrev pub is_ok {ℓ} : {A : Type ℓ} → Result A → Bool
is_ok (ok _) = true
is_ok (err _) = false

pub result_cases {ℓ} :
    {A : Type ℓ} (x : Result A) → ((a : A) × (x ≡ ok a)) ⊎ ((e : Error) × (x ≡ err e))
result_cases (ok a) = inl (a, refl)
result_cases (err e) = inr (e, refl)

-- `return value, err` where err may be nil.
abbrev pub unless {ℓ} : {A : Type ℓ} → Option Error → A → Result A
unless none a = ok a
unless (some e) a = err e

-- fmt.Errorf("...: %w", err) on the error path alone.
abbrev pub wrapping {ℓ} : {A : Type ℓ} → String → Result A → Result A
wrapping s (ok a) = ok a
wrapping s (err e) = err (wrap s e)
