-- ===== src/Sdk.antt =====
-- sdk/web.go: the inputs of a guarded command, in order. The web SDK's reads of a request are what they
-- returned.
use go_web_service.Prelude.{ℕ, String, Result, ok, err}

pub record Guarded (T : Type 0) : Type 0 where
  pub id : String
  pub version : ℕ
  pub body : T

-- The path's id and the If-Match version; the first rejection is the error.
unfoldable pub precondition : Result String → Result ℕ → Result (String × ℕ)
precondition (err e) version = err e
precondition (ok id) (err e) = err e
precondition (ok id) (ok version) = ok (id, version)

-- Command
unfoldable pub command : {T : Type 0} → Result String → Result ℕ → Result T → Result (Guarded T)
command (err e) version body = err e
command (ok id) (err e) body = err e
command (ok id) (ok version) (err e) = err e
command (ok id) (ok version) (ok body) = ok (record { id = id; version = version; body = body })
