-- ===== src/Config/Root/Bounds.antt =====
-- What a finalized configuration promises the process.
use go_web_service.Prelude.{String, ◌≡◌, refl, arith, Result, ok, err, wrapping, ap, subst}
use go_web_service.Config.Sweep
use go_web_service.Config.Sweep.Bounds.{IsFinal, finalize-IsFinal}
use go_web_service.Config.Reads
use go_web_service.Config.Reads.{ReadsConfig, Limits}
use go_web_service.Config.Reads.Bounds.{IsLimited, finalize-IsLimited}
use go_web_service.Config.Root.{Blocks, Config, Environment, ◌>>=◌, finalize}

bound :
    {A B : Type 0} (x : Result A) (f : A → Result B) {b : B}
    → (x >>= f) ≡ ok b
    → (a : A) × (x ≡ ok a) × (f a ≡ ok b)
bound (ok a) f h = (a, refl, h)
bound (err e) f h = cc

wrapping-ok :
    {A : Type 0} (text : String) (x : Result A) {a : A} → wrapping text x ≡ ok a → x ≡ ok a
wrapping-ok text (ok b) h = h
wrapping-ok text (err e) h = cc

ok-injective : {A : Type 0} {a b : A} → ◌≡◌ {A = Result A} (ok a) (ok b) → a ≡ b
ok-injective h = ground arith

-- A configuration that Finalize accepts has a paging policy whose default size is one at least and
-- whose maximum is no less, and a sweep of positive durations and a batch of one at least,
-- whatever its layers and the environment set.
pub finalize-IsBounded :
    (b : Blocks) (env : Environment) (prefix : String) (c : Config b) {c' : Config b}
    → finalize b env prefix c ≡ ok c'
    → IsLimited c'.reads × IsFinal c'.sweep
unfolding finalize
finalize-IsBounded b env prefix c {c'} h =
    let (_, _, h0) = bound (b.lifecycle.finalize prefix c.lifecycle) _ h in
    let (_, _, h1) = bound (wrapping "log" (b.log.finalize prefix c.log)) _ h0 in
    let (_, _, h2) = bound (wrapping "server" (b.server.finalize prefix c.server)) _ h1 in
    let (_, _, h3) = bound (wrapping "database" (b.database.finalize prefix c.database)) _ h2 in
    let (_, _, h4) = bound (wrapping "storage" (b.storage.finalize prefix c.storage)) _ h3 in
    let (_, _, h5) = bound (wrapping "messaging" (b.messaging.finalize prefix c.messaging)) _ h4 in
    let (_, _, h6) = bound (b.nats.finalize prefix c.nats) _ h5 in
    let (_, _, h7) =
      bound (wrapping "observability" (b.observability.finalize prefix c.observability)) _ h6 in
    let (_, _, h8) =
      bound (wrapping "rate_limit" (b.rate_limit.finalize prefix c.rate_limit)) _ h7 in
    let (reads, r, h9) =
      bound (wrapping "reads" (Reads.finalize (env.int_env prefix) c.reads)) _ h8 in
    let (sweep, s, h10) =
      bound
        (wrapping "sweep" (Sweep.finalize (env.duration_env prefix) (env.int_env prefix) c.sweep)) _
        h9 in
    let same = ok-injective h10 in
    (
      subst IsLimited (ap (λ (x : Config b). x.reads) same)
          (finalize-IsLimited (env.int_env prefix) c.reads (wrapping-ok "reads" _ r)),
      subst IsFinal (ap (λ (x : Config b). x.sweep) same) (
          finalize-IsFinal (env.duration_env prefix) (env.int_env prefix) c.sweep
            (wrapping-ok "sweep" _ s)),
    )
