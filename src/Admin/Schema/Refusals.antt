-- ===== src/Admin/Schema/Refusals.antt =====
-- The administrative requests that are refused before anything runs.
use go_web_service.Prelude.{false, ◌≡◌, refl, some, Error, ok, err, is}
use go_web_service.Data.Status.{bare}
use go_web_service.Admin.Schema.{
  SchemaGate, Service, Request, Reset, unconfirmed, matched_status, handle, handle_reset,
}

-- A reset that its body does not confirm changes nothing, waits for no gate, and is answered 400.
pub unconfirmed-matched_status :
    {W Status Counts Transition : Type 0} (gate : SchemaGate W)
    (service : Service W Status Counts Transition) (body : Reset) (w : W)
    → body.confirm ≡ false
    → (e : Error) × (handle gate service (Request.reset (ok body)) w ≡ (err e, w))
      × (matched_status e ≡ some (bare 400))
unfolding handle handle_reset matched_status is
unconfirmed-matched_status gate service body w h = (unconfirmed body.state, rw h, refl)
