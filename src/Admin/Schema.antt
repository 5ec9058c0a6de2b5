-- ===== src/Admin/Schema.antt =====
-- admin/database/handler.go: the handlers over go-database's admin service, a parameter, and the
-- process's schema gate. `W` is the process's state. A request carries what web.DecodeJSON made of its
-- body, and an answer is what is written with status 200.
pub mod Gating
pub mod Refusals
mod Tests
use go_web_service.Prelude.{
  String, Bool, true, false, ◌≡◌, Option, none, some, List, [], ◌∷◌, if◌then◌else◌, ℤ, pos, is_zero,
  Error, Sentinel, sentinel, Result, ok, err, wrap,
}
use go_web_service.Data.Status.{Problem, bare, is_any}

pub record Steps : Type 0 where
  pub set : String
  pub steps : ℤ

pub record Force : Type 0 where
  pub set : String
  pub version : ℤ

pub record State : Type 0 where
  pub state : String

pub record Reset : Type 0 where
  pub state : String
  pub confirm : Bool

-- SchemaGate, with the release that Exclusive returns; `held` is whether a verb holds it.
pub record SchemaGate (W : Type 0) : Type 0 where
  pub exclusive : W → Option Error × W
  pub release : W → W
  pub held : W → Bool
  pub exclusive-held : (w : W) {w' : W} → exclusive w ≡ (none, w') → held w' ≡ true
  pub exclusive-refused :
      (w : W) {e : Error} {w' : W} → held w ≡ false → exclusive w ≡ (some e, w') → held w' ≡ false
  pub release-held : (w : W) → held (release w) ≡ false

-- An operation of the admin service.
abbrev pub Op : Type 0 → Type 0 → Type 0
Op W A = W → Result A × W

-- admin.Service, with the types of what it answers.
pub record Service (W Status Counts Transition : Type 0) : Type 0 where
  pub status : Op W Status
  pub verify : W → Option Error × W
  pub up : Op W Status
  pub down : String → ℤ → Op W Status
  pub steps : String → ℤ → Op W Status
  pub force : String → ℤ → Op W Status
  pub seed : String → Op W Counts
  pub reset : String → Op W Transition

pub data Answer (Status Counts Transition : Type 0) : Type 0 where
  schema : Status → Answer Status Counts Transition
  seeded : Counts → Answer Status Counts Transition
  moved : Transition → Answer Status Counts Transition

pub data Request : Type 0 where
  read_status verify up : Request
  down steps : Result Steps → Request
  force : Result Force → Request
  -- Without a body, nothing is decoded.
  seed : Option (Result State) → Request
  reset : Result Reset → Request

-- ErrUnconfirmed, under the state's name
abbrev pub unconfirmed : String → Error
unconfirmed state = wrap state (sentinel Sentinel.unconfirmed)

-- status; Sentinel.bad_argument is admin.ErrValidation.
unfoldable pub matched_status : Error → Option Problem
matched_status e =
    if is_any e (
      Sentinel.bad_argument ∷ Sentinel.unknown_set ∷ Sentinel.unknown_state ∷ Sentinel.unconfirmed
      ∷ [])
    then some (bare 400)
    else if is_any e (Sentinel.seed_disabled ∷ [])
    then some (bare 403)
    else if is_any e (Sentinel.schema_conflict ∷ [])
    then some (bare 409)
    else none

-- `if body.Steps == 0 { body.Steps = 1 }`
abbrev pub at_least_one : ℤ → ℤ
at_least_one n = if is_zero n then pos 1 else n

-- A handler's answer from an operation's.
abbrev pub respond : {W A B : Type 0} → (A → B) → Result A × W → Result B × W
respond f (err e, w) = (err e, w)
respond f (ok a, w) = (ok (f a), w)

module _ {W : Type 0} (gate : SchemaGate W) where
  -- exclusive, once the gate has answered
  unfoldable pub gated : {A : Type 0} → Op W A → Option Error × W → Result A × W
  gated op (some e, w) = (err e, w)
  gated op (none, w) = let (a, w') = op w in (a, gate.release w')

  unfoldable pub exclusive : {A : Type 0} → Op W A → Op W A
  unfolding gated
  exclusive op w = gated op (gate.exclusive w)

  module _ {Status Counts Transition : Type 0} (service : Service W Status Counts Transition) where
    abbrev Handler : Type 0
    Handler = Op W (Answer Status Counts Transition)

    verified : Option Error × W → Result (Answer Status Counts Transition) × W
    verified (some e, w) = (err e, w)
    verified (none, w) = respond Answer.schema (service.status w)

    unfoldable pub handle_down : Result Steps → Handler
    handle_down (err e) w = (err e, w)
    handle_down (ok body) w =
        respond Answer.schema (exclusive (service.down body.set (at_least_one body.steps)) w)

    unfoldable pub handle_steps : Result Steps → Handler
    handle_steps (err e) w = (err e, w)
    handle_steps (ok body) w =
        respond Answer.schema (exclusive (service.steps body.set body.steps) w)

    unfoldable pub handle_force : Result Force → Handler
    handle_force (err e) w = (err e, w)
    handle_force (ok body) w = respond Answer.schema (service.force body.set body.version w)

    unfoldable pub handle_seed : Option (Result State) → Handler
    handle_seed none w = respond Answer.seeded (service.seed "" w)
    handle_seed (some (err e)) w = (err e, w)
    handle_seed (some (ok body)) w = respond Answer.seeded (service.seed body.state w)

    -- state
    unfoldable pub handle_reset : Result Reset → Handler
    handle_reset (err e) w = (err e, w)
    handle_reset (ok body) w =
        if body.confirm
        then respond Answer.moved (exclusive (service.reset body.state) w)
        else (err (unconfirmed body.state), w)

    unfoldable pub handle : Request → Handler
    unfolding verified handle_down handle_steps handle_force handle_seed handle_reset
    handle Request.read_status w = respond Answer.schema (service.status w)
    handle Request.verify w = verified (service.verify w)
    handle Request.up w = respond Answer.schema (exclusive service.up w)
    handle (Request.down body) w = handle_down body w
    handle (Request.steps body) w = handle_steps body w
    handle (Request.force body) w = handle_force body w
    handle (Request.seed body) w = handle_seed body w
    handle (Request.reset body) w = handle_reset body w
