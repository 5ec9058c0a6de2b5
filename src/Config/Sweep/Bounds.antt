-- ===== src/Config/Sweep/Bounds.antt =====
-- What a finalized sweep block promises, and how layers of it overlay.
use go_web_service.Prelude.{
  String, ◌≡◌, refl, Option, none, some, arith, ℤ, pos, ◌≤ℤ◌, Result, ok, err, subst,
}
use go_web_service.Config.Sweep.{SweepConfig, merge, with_defaults, check, override, finalize}

-- Every duration is positive and the batch is set, to one at least.
pub record IsFinal (c : SweepConfig) : Type 0 where
  pub interval : pos 1 ≤ℤ c.interval
  pub size : ℤ
  pub batch : c.batch ≡ some size
  pub at_least_one : pos 1 ≤ℤ size
  pub stale_age : pos 1 ≤ℤ c.stale_age
  pub outbox_age : pos 1 ≤ℤ c.outbox_age
  pub inbox_age : pos 1 ≤ℤ c.inbox_age

check-IsFinal :
    (c : SweepConfig) (batch : Option ℤ) {c' : SweepConfig}
    → c.batch ≡ batch
    → check c ≡ ok c'
    → (c ≡ c') × IsFinal c
unfolding check
check-IsFinal c none b h = absurd (ground arith)
check-IsFinal c (some n) b h = (
  ground arith,
  record {
    interval = ground arith;
    size = n;
    batch = b;
    at_least_one = ground arith;
    stale_age = ground arith;
    outbox_age = ground arith;
    inbox_age = ground arith;
  },
)

module _ (duration_env int_env : String → Result (Option ℤ)) where
  finalize_by :
      (x : Result SweepConfig) {c' : SweepConfig}
      → (elim x as (λ _. Result SweepConfig) [ err e ↦ err e | ok c' ↦ check c' ]) ≡ ok c'
      → (c : SweepConfig) × (x ≡ ok c) × (check c ≡ ok c')
  finalize_by (ok c) h = (c, refl, h)
  finalize_by (err e) h = cc

  -- A block that Finalize accepts has positive durations and a batch of one at least, whatever the
  -- files and the environment set: the bounds that the sweeper and the retentions require.
  pub finalize-IsFinal :
      (c : SweepConfig) {c' : SweepConfig} → finalize duration_env int_env c ≡ ok c' → IsFinal c'
  unfolding finalize
  finalize-IsFinal c {c'} h =
      let (c1, overrode, checked) =
        finalize_by (override duration_env int_env (with_defaults c)) h in
      let (same, final) = check-IsFinal c1 c1.batch refl checked in subst IsFinal same final

-- Overlaying layers one after another is overlaying the layers' own overlay: a file that sets a field
-- wins over every file before it.
pub merge_assoc :
    (a b c : SweepConfig) → merge (merge a (some b)) (some c) ≡ merge a (some (merge b (some c)))
unfolding merge
merge_assoc a b c = ground arith
