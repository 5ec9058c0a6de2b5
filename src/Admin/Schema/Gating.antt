-- ===== src/Admin/Schema/Gating.antt =====
-- The gate around the verbs that change the schema.
use go_web_service.Prelude.{
  String, true, false, Bool-cases, inl, inr, ◌≡◌, refl, ap, subst, ◌∙◌, Option, none, some, ℤ,
  Error, Result, ok, err,
}
use go_web_service.Admin.Schema.{
  SchemaGate, Op, Service, Answer, Request, respond, at_least_one, gated, exclusive, verified,
  handle_down, handle_steps, handle_force, handle_seed, handle_reset, handle,
}

module _ {W : Type 0} (gate : SchemaGate W) (P : W → Type 0) where
  -- An operation keeps `P` and whether the gate is held, from any state in which it is.
  pub record IsQuiet {A : Type 0} (op : Op W A) : Type 0 where
    pub keeps : (w : W) → P w → P (op w).1
    pub same : (w : W) → gate.held (op w).1 ≡ gate.held w

  -- An operation keeps `P` while the gate is held.
  pub record IsQuiesced {A : Type 0} (op : Op W A) : Type 0 where
    pub keeps : (w : W) → gate.held w ≡ true → P w → P (op w).1

  -- The service, for a property that its schema verbs keep only while the gate is held: any that
  -- background work, running while it is not, would see broken.
  pub record Promises {Status Counts Transition : Type 0}
      (service : Service W Status Counts Transition) : Type 0 where
    pub waits : (w : W) → P w → P (gate.exclusive w).1
    pub releases : (w : W) → P w → P (gate.release w)
    pub status : IsQuiet service.status
    pub verify_keeps : (w : W) → P w → P (service.verify w).1
    pub verify_same : (w : W) → gate.held (service.verify w).1 ≡ gate.held w
    pub force : (set : String) (version : ℤ) → IsQuiet (service.force set version)
    pub seed : (state : String) → IsQuiet (service.seed state)
    pub up : IsQuiesced service.up
    pub down : (set : String) (n : ℤ) → IsQuiesced (service.down set n)
    pub steps : (set : String) (n : ℤ) → IsQuiesced (service.steps set n)
    pub reset : (state : String) → IsQuiesced (service.reset state)

  -- `P` stands and no verb holds the gate.
  abbrev pub IsFree : W → Type 0
  IsFree w = P w × (gate.held w ≡ false)

  module _ {Status Counts Transition : Type 0} (service : Service W Status Counts Transition)
      (p : Promises service) where
    respond-state :
        {A B : Type 0} (f : A → B) (r : Result A × W) → IsFree r.1 → IsFree (respond f r).1
    respond-state f (ok a, w) h = h
    respond-state f (err e, w) h = h

    gated-IsFree :
        {A : Type 0} (op : Op W A) (w : W) (r : Option Error × W)
        → IsQuiesced op
        → IsFree w
        → gate.exclusive w ≡ r
        → IsFree (gated gate op r).1
    unfolding gated
    gated-IsFree op w (some e, w') q (h, f) g =
        (subst P (ap (λ r. r.1) g) (p.waits w h), gate.exclusive-refused w f g)
    gated-IsFree op w (none, w') q (h, f) g = (
      p.releases (op w').1
          (q.keeps w' (gate.exclusive-held w g) (subst P (ap (λ r. r.1) g) (p.waits w h))),
      gate.release-held (op w').1,
    )

    exclusive-IsFree :
        {A : Type 0} (op : Op W A) (w : W)
        → IsQuiesced op
        → IsFree w
        → IsFree (exclusive gate op w).1
    unfolding exclusive
    exclusive-IsFree op w q h = gated-IsFree op w (gate.exclusive w) q h refl

    quiet-IsFree : {A : Type 0} (op : Op W A) (w : W) → IsQuiet op → IsFree w → IsFree (op w).1
    quiet-IsFree op w q (h, f) = (q.keeps w h, q.same w ∙ f)

    verified-IsFree :
        (w : W) (r : Option Error × W) → IsFree r.1 → IsFree (verified gate service r).1
    unfolding verified
    verified-IsFree w (some e, w') h = h
    verified-IsFree w (none, w') h =
        respond-state Answer.schema (service.status w') (quiet-IsFree service.status w' p.status h)

    -- From a state in which no verb holds the gate, whatever the request and its body: a property
    -- that the schema verbs keep only while the gate is held, and every other operation always,
    -- still stands after the request, and the gate is released. So no schema verb runs without the
    -- gate, and no path leaves it held.
    pub handle-IsFree : (r : Request) (w : W) → IsFree w → IsFree (handle gate service r w).1
    unfolding handle handle_down handle_steps handle_force handle_seed handle_reset
    handle-IsFree Request.read_status w h =
        respond-state Answer.schema _ (quiet-IsFree service.status w p.status h)
    handle-IsFree Request.verify w h =
        verified-IsFree w (service.verify w) (p.verify_keeps w h.0, p.verify_same w ∙ h.1)
    handle-IsFree Request.up w h =
        respond-state Answer.schema _ (exclusive-IsFree service.up w p.up h)
    handle-IsFree (Request.down (ok b)) w h =
        respond-state Answer.schema _ (exclusive-IsFree _ w (p.down b.set (at_least_one b.steps)) h)
    handle-IsFree (Request.steps (ok b)) w h =
        respond-state Answer.schema _ (exclusive-IsFree _ w (p.steps b.set b.steps) h)
    handle-IsFree (Request.force (ok b)) w h =
        respond-state Answer.schema _ (quiet-IsFree _ w (p.force b.set b.version) h)
    handle-IsFree (Request.seed none) w h =
        respond-state Answer.seeded _ (quiet-IsFree _ w (p.seed "") h)
    handle-IsFree (Request.seed (some (ok b))) w h =
        respond-state Answer.seeded _ (quiet-IsFree _ w (p.seed b.state) h)
    handle-IsFree (Request.reset (ok b)) w h = elim (Bool-cases b.confirm) [
      | inl confirmed ↦
          rw confirmed (respond-state Answer.moved _ (exclusive-IsFree _ w (p.reset b.state) h))
      | inr unconfirmed ↦ rw unconfirmed h
    ]
    handle-IsFree (Request.down (err e)) w h = h
    handle-IsFree (Request.steps (err e)) w h = h
    handle-IsFree (Request.force (err e)) w h = h
    handle-IsFree (Request.seed (some (err e))) w h = h
    handle-IsFree (Request.reset (err e)) w h = h
