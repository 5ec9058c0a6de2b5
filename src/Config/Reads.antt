-- ===== src/Config/Reads.antt =====
-- internal/config/reads.go: the paging policy's block.
pub mod Bounds
use go_web_service.Prelude.{
  String, Bool, Option, none, some, ℤ, pos, ltb_ℤ, if◌then◌else◌, Error, Result, ok, err,
}
use go_web_service.Config.{overlay}

pub record ReadsConfig : Type 0 where
  pub default_size : Option ℤ
  pub max_size : Option ℤ

-- web.Limits
pub record Limits : Type 0 where
  pub default_size : ℤ
  pub max_size : ℤ

-- Merge; `none` is a nil source.
unfoldable pub merge : ReadsConfig → Option ReadsConfig → ReadsConfig
merge c none = c
merge c (some src) = record {
  default_size = overlay c.default_size src.default_size;
  max_size = overlay c.max_size src.max_size;
}

abbrev pub or_size : Option ℤ → ℤ → Option ℤ
or_size none d = some d
or_size (some v) d = some v

unfoldable pub with_defaults : ReadsConfig → ReadsConfig
with_defaults c = record {
  default_size = or_size c.default_size (pos 20);
  max_size = or_size c.max_size (pos 100);
}

-- Limits, a panic on a field that is not set
unfoldable pub limits : ReadsConfig → Result Limits
limits c = elim c.default_size [
  | none ↦ err (Error.plain "nil pointer")
  | some d ↦ elim c.max_size [
    | none ↦ err (Error.plain "nil pointer")
    | some m ↦ ok (record { default_size = d; max_size = m })
  ]
]

-- Finalize's checks, in order, on the sizes that the fields point to.
unfoldable pub check : ReadsConfig → Result ReadsConfig
unfolding limits
check c = elim (limits c) [
  | err e ↦ err e
  | ok l ↦
      if ltb_ℤ l.default_size (pos 1)
      then err (Error.plain "default_size must be at least 1")
      else if ltb_ℤ l.max_size l.default_size
      then err (Error.plain "max_size must be at least default_size")
      else ok c
]

-- The overrides over the defaulted sizes, the default size's first, then the checks.
unfoldable pub override : Result (Option ℤ) → Result (Option ℤ) → ReadsConfig → Result ReadsConfig
unfolding check
override (err e) max_size d = err e
override (ok default_size) (err e) d = err e
override (ok default_size) (ok max_size) d = check (record {
  default_size = overlay d.default_size default_size;
  max_size = overlay d.max_size max_size;
})

module _ (int_env : String → Result (Option ℤ)) where
  unfoldable pub finalize : ReadsConfig → Result ReadsConfig
  unfolding with_defaults override
  finalize c = override (int_env "reads_default_size") (int_env "reads_max_size") (with_defaults c)
