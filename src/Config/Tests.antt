-- ===== src/Config/Tests.antt =====
-- A configuration whose environment sets the batch and the seed.
use go_web_service.Prelude.{
  String, ◌≡◌, ◌↔◌, refl, Option, none, some, ℤ, pos, ◌≤ℤ◌, ◌==◌, if◌then◌else◌, Result, ok,
}
use go_web_service.Config.Sweep.{
  SweepConfig, with_defaults, check, override, override_duration, override_batch, finalize,
}
use go_web_service.Config.Sweep.Bounds.{IsFinal}
use go_web_service.Config.Reads
use go_web_service.Config.Reads.{ReadsConfig, Limits, limits}
use go_web_service.Config.Reads.Bounds.{finalize_iff, IsLimited}
use go_web_service.Config.Admin
use go_web_service.Config.Admin.{AdminConfig, seed_state}
use go_web_service.Config.Root
use go_web_service.Config.Root.{Block, Blocks, Config, Environment}
use go_web_service.Config.Root.Bounds.{finalize-IsBounded}

abbrev no_duration : String → Result (Option ℤ)
no_duration key = ok none

abbrev batch_set : String → Result (Option ℤ)
batch_set key = if key == "sweep_batch" then ok (some (pos 50)) else ok none

abbrev unset : SweepConfig
unset = record {
  interval = pos 0;
  batch = none;
  stale_age = pos 0;
  outbox_age = pos 5;
  inbox_age = pos 0;
}

abbrev swept : SweepConfig
swept = record {
  interval = pos 30_000_000_000;
  batch = some (pos 50);
  stale_age = pos 3_600_000_000_000;
  outbox_age = pos 5;
  inbox_age = pos 604_800_000_000_000;
}

abbrev paged : ReadsConfig
paged = record { default_size = some (pos 10); max_size = none }

finalize_iff_example : ((pos 1 ≤ℤ pos 10) × (pos 10 ≤ℤ pos 100)) ↔ (
    (c' : ReadsConfig) × (Reads.finalize batch_set paged ≡ ok c')
    × (limits c' ≡ ok (record { default_size = pos 10; max_size = pos 100 })))
finalize_iff_example = finalize_iff batch_set paged none none refl refl

-- A library's block of one setting.
abbrev block : Block ℤ
block = record { merge = λ a src. a; finalize = λ prefix a. ok a }

abbrev blocks : Blocks
blocks = record {
  Lifecycle = ℤ;
  Log = ℤ;
  Server = ℤ;
  Database = ℤ;
  Storage = ℤ;
  Messaging = ℤ;
  Nats = ℤ;
  Observability = ℤ;
  RateLimit = ℤ;
  lifecycle = block;
  log = block;
  server = block;
  database = block;
  storage = block;
  messaging = block;
  nats = block;
  observability = block;
  rate_limit = block;
}

abbrev environment : Environment
environment = record {
  duration_env = λ prefix. no_duration;
  int_env = λ prefix. batch_set;
  text_env = λ prefix key. "demo";
}

abbrev configured : ReadsConfig → AdminConfig → SweepConfig → Config blocks
configured reads admin sweep = record {
  lifecycle = pos 1;
  log = pos 1;
  server = pos 1;
  database = pos 1;
  storage = pos 1;
  messaging = pos 1;
  nats = pos 1;
  observability = pos 1;
  rate_limit = pos 1;
  reads = reads;
  admin = admin;
  sweep = sweep;
}

abbrev sizes : ReadsConfig
sizes = record { default_size = some (pos 10); max_size = some (pos 100) }

finalize-IsBounded_example : IsLimited sizes × IsFinal swept
unfolding override_duration override_batch override with_defaults check finalize Reads.with_defaults
    Reads.limits Reads.check Reads.override Reads.finalize Admin.finalize Root.finalize
finalize-IsBounded_example =
    finalize-IsBounded blocks environment "SVC" (configured paged (record { seed = none }) unset)
      {c' = configured sizes (record { seed = some "demo" }) swept} refl
