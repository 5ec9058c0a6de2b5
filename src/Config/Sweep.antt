-- ===== src/Config/Sweep.antt =====
-- internal/config/sweep.go: the sweep's block.
pub mod Bounds
use go_web_service.Prelude.{
  String, Bool, true, false, Option, none, some, ℤ, pos, is_zero, leb_ℤ, ltb_ℤ, if◌then◌else◌,
  Error, wrap, Result, ok, err, wrapping,
}
use go_web_service.Config.{overlay_duration, overlay, overridden}

pub record SweepConfig : Type 0 where
  pub interval : ℤ
  pub batch : Option ℤ
  pub stale_age : ℤ
  pub outbox_age : ℤ
  pub inbox_age : ℤ

-- The defaults, in nanoseconds.
abbrev pub default_interval : ℤ
default_interval = pos 30_000_000_000

abbrev pub default_batch : ℤ
default_batch = pos 100

abbrev pub default_stale_age : ℤ
default_stale_age = pos 3_600_000_000_000

abbrev pub default_retention : ℤ
default_retention = pos 604_800_000_000_000

-- Merge; `none` is a nil source.
unfoldable pub merge : SweepConfig → Option SweepConfig → SweepConfig
merge c none = c
merge c (some src) = record {
  interval = overlay_duration c.interval src.interval;
  batch = overlay c.batch src.batch;
  stale_age = overlay_duration c.stale_age src.stale_age;
  outbox_age = overlay_duration c.outbox_age src.outbox_age;
  inbox_age = overlay_duration c.inbox_age src.inbox_age;
}

abbrev pub or_default : ℤ → ℤ → ℤ
or_default v d = if is_zero v then d else v

abbrev pub set_or : Option ℤ → ℤ → ℤ
set_or none d = d
set_or (some v) d = v

-- The block once its defaults are applied.
unfoldable pub with_defaults : SweepConfig → SweepConfig
with_defaults c = record {
  interval = or_default c.interval default_interval;
  batch = some (set_or c.batch default_batch);
  stale_age = or_default c.stale_age default_stale_age;
  outbox_age = or_default c.outbox_age default_retention;
  inbox_age = or_default c.inbox_age default_retention;
}

abbrev pub is_positive : ℤ → Bool
is_positive v = ltb_ℤ (pos 0) v

-- Finalize's checks, in order.
unfoldable pub check : SweepConfig → Result SweepConfig
check c =
    if leb_ℤ c.interval (pos 0)
    then err (Error.plain "interval must be positive")
    else if ltb_ℤ (set_or c.batch (pos 0)) (pos 1)
    then err (Error.plain "batch must be at least 1")
    else if leb_ℤ c.stale_age (pos 0)
    then err (Error.plain "stale_age must be positive")
    else if leb_ℤ c.outbox_age (pos 0)
    then err (Error.plain "outbox_age must be positive")
    else if leb_ℤ c.inbox_age (pos 0)
    then err (Error.plain "inbox_age must be positive")
    else ok c

module _ (duration_env int_env : String → Result (Option ℤ)) where
  -- overrideDuration
  unfoldable pub override_duration : String → ℤ → Result ℤ
  override_duration key old = wrapping key (overridden old (duration_env key))

  unfoldable pub override_batch : Option ℤ → Result (Option ℤ)
  override_batch old = elim (int_env "sweep_batch") [
    | err e ↦ err e
    | ok found ↦ ok (overlay old found)
  ]

  -- The overrides, in order, the first refusal ending them.
  unfoldable pub override : SweepConfig → Result SweepConfig
  unfolding override_duration override_batch
  override c = elim (override_duration "sweep_interval" c.interval) [
    | err e ↦ err e
    | ok interval ↦ elim (override_batch c.batch) [
      | err e ↦ err e
      | ok batch ↦ elim (override_duration "sweep_stale_age" c.stale_age) [
        | err e ↦ err e
        | ok stale_age ↦ elim (override_duration "sweep_outbox_age" c.outbox_age) [
          | err e ↦ err e
          | ok outbox_age ↦ elim (override_duration "sweep_inbox_age" c.inbox_age) [
            | err e ↦ err e
            | ok inbox_age ↦ ok (record {
              interval = interval;
              batch = batch;
              stale_age = stale_age;
              outbox_age = outbox_age;
              inbox_age = inbox_age;
            })
          ]
        ]
      ]
    ]
  ]

  unfoldable pub finalize : SweepConfig → Result SweepConfig
  unfolding with_defaults override check
  finalize c = elim (override (with_defaults c)) [ err e ↦ err e | ok c' ↦ check c' ]
