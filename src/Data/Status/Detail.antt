-- ===== src/Data/Status/Detail.antt =====
-- What the context that a store wraps an error in can change of its answer.
use go_web_service.Prelude.{String, ◌≡◌, refl, List, [], ◌∷◌, Error, wrap, Sentinel, is, as_typed}
use go_web_service.Data.Status.{status, request_detail}

-- The error under a chain of `fmt.Errorf("...: %w", err)`, the outermost text first.
abbrev pub wraps : List String → Error → Error
wraps [] e = e
wraps (s ∷ ss) e = wrap s (wraps ss e)

module _ (sentinel_text : Sentinel → String) where
  -- Status and its detail are those of the error beneath any chain of wrapping texts: the operation
  -- chain never reaches the wire and never changes the answer.
  pub status-wraps :
      (chain : List String) (e : Error)
      → status sentinel_text (wraps chain e) ≡ status sentinel_text e
  unfolding status request_detail is as_typed
  status-wraps [] e = refl
  status-wraps (s ∷ ss) e = status-wraps ss e
