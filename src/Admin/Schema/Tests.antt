-- ===== src/Admin/Schema/Tests.antt =====
-- A service whose schema verbs count the migrations applied, on a state that says whether the gate is
-- held.
use go_web_service.Prelude.{
  ℕ, Bool, true, false, ◌≡◌, refl, sym, ap, arith, ◌≤◌, Option, none, some, Error, ok,
}
use go_web_service.Admin.Schema.{SchemaGate, Service, Request, handle}
use go_web_service.Admin.Schema.Gating.{IsFree, Promises, handle-IsFree}

abbrev World : Type 0
World = Bool × ℕ

unrefused :
    {e : Error} {w v : World} → ◌≡◌ {A = Option Error × World} (none, w) (some e, v) → v.0 ≡ false
unrefused h = ground (arith, h)

abbrev gate : SchemaGate World
gate = record {
  exclusive = λ w. (none, (true, w.1));
  release = λ w. (false, w.1);
  held = λ w. w.0;
  exclusive-held = λ w h. ap (λ r. r.1.0) (sym h);
  exclusive-refused = λ w f h. unrefused h;
  release-held = λ w. refl;
}

abbrev service : Service World ℕ ℕ ℕ
service = record {
  status = λ w. (ok w.1, w);
  verify = λ w. (none, w);
  up = λ w. (ok 1, (w.0, 1));
  down = λ set n w. (ok 0, (w.0, 0));
  steps = λ set n w. (ok 1, (w.0, 1));
  force = λ set version w. (ok w.1, w);
  seed = λ state w. (ok 0, w);
  reset = λ state w. (ok 1, (w.0, 1));
}

-- The migrations applied are at most one.
abbrev AtMostOne : World → Type 0
AtMostOne w = w.1 ≤ 1

abbrev promises : Promises gate AtMostOne service
promises = record {
  waits = λ w h. h;
  releases = λ w h. h;
  status = record { keeps = λ w h. h; same = λ w. refl };
  verify_keeps = λ w h. h;
  verify_same = λ w. refl;
  force = λ set version. record { keeps = λ w h. h; same = λ w. refl };
  seed = λ state. record { keeps = λ w h. h; same = λ w. refl };
  up = record { keeps = λ w f h. omega arith };
  down = λ set n. record { keeps = λ w f h. omega arith };
  steps = λ set n. record { keeps = λ w f h. omega arith };
  reset = λ state. record { keeps = λ w f h. omega arith };
}

handle-IsFree_example : IsFree gate AtMostOne (handle gate service Request.up (false, 0)).1
handle-IsFree_example =
    handle-IsFree gate AtMostOne service promises Request.up (false, 0) (omega arith, refl)
