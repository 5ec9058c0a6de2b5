-- ===== src/Admin/Storage.antt =====
-- admin/storage/handler.go: the object store's diagnostics. go-storage's store is a parameter.
use go_web_service.Prelude.{
  ℕ, String, Bool, Option, none, some, [], ◌∷◌, if◌then◌else◌, Error, Sentinel, Result, ok, err,
}
use go_web_service.Data.Status.{Problem, bare, is_any}

pub record Diagnostics : Type 0 where
  pub ready : Bool
  pub container : String
  pub max_key_length : ℕ

-- Store, on the state of the object store.
pub record Store (W : Type 0) : Type 0 where
  pub ready : W → Bool
  pub container : String
  pub max_key_length : ℕ
  pub ensure_container : W → Option Error × W

module _ {W : Type 0} (store : Store W) where
  -- diagnostics
  unfoldable pub diagnostics : W → Diagnostics
  diagnostics w = record {
    ready = store.ready w;
    container = store.container;
    max_key_length = store.max_key_length;
  }

  unfoldable pub answered : Option Error × W → Result Diagnostics × W
  unfolding diagnostics
  answered (some e, w) = (err e, w)
  answered (none, w) = (ok (diagnostics w), w)

  -- container
  unfoldable pub container : W → Result Diagnostics × W
  unfolding answered
  container w = answered (store.ensure_container w)

-- status
unfoldable pub matched_status : Error → Option Problem
matched_status e =
    if is_any e (Sentinel.unavailable ∷ Sentinel.store_not_ready ∷ [])
    then some (bare 503)
    else none
