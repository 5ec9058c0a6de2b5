-- ===== src/Config/Reads/Bounds.antt =====
-- What a finalized paging policy promises its handlers.
use go_web_service.Prelude.{
  String, ◌≡◌, sym, subst, ◌∙◌, ◌↔◌, Option, none, some, arith, ℤ, pos, ◌≤ℤ◌, Result, ok,
  result_cases, inl, inr,
}
use go_web_service.Config.{overlay}
use go_web_service.Config.Reads.{
  ReadsConfig, Limits, with_defaults, limits, check, override, finalize,
}

-- The sizes that stand: the environment's, else the files', else the default.
abbrev pub size_of : Option ℤ → Option ℤ → ℤ → ℤ
size_of none none d = d
size_of (some v) none d = v
size_of field (some v) d = v

check-overlay :
    (c : ReadsConfig) (d m : Option ℤ)
    → let x = size_of c.default_size d (pos 20) in
      let y = size_of c.max_size m (pos 100) in
      let w = with_defaults c in
      let r : ReadsConfig = record {
        default_size = overlay w.default_size d;
        max_size = overlay w.max_size m;
      } in
      (limits r ≡ ok (record { default_size = x; max_size = y }))
      × (((pos 1 ≤ℤ x) × (x ≤ℤ y)) ↔ (check r ≡ ok r))
unfolding with_defaults check limits
check-overlay c d m = ground arith

finalize_lem :
    (int_env : String → Result (Option ℤ)) (c : ReadsConfig) (d m : Option ℤ)
    → int_env "reads_default_size" ≡ ok d
    → int_env "reads_max_size" ≡ ok m
    → let w = with_defaults c in
      finalize int_env c
      ≡ check (record { default_size = overlay w.default_size d; max_size = overlay w.max_size m })
unfolding finalize
finalize_lem int_env c d m h k = λ i. override (h i) (k i) (with_defaults c)

accepted : (r c : ReadsConfig) → check r ≡ ok c → check r ≡ ok r
unfolding check limits
accepted r c h = ground arith

-- Finalize accepts exactly the policies whose default size is one at least and whose maximum is no
-- less, with the environment's sizes over the files' and the defaults beneath; a policy that it
-- accepts hands the handlers those sizes.
pub finalize_iff :
    (int_env : String → Result (Option ℤ)) (c : ReadsConfig) (d m : Option ℤ)
    → int_env "reads_default_size" ≡ ok d
    → int_env "reads_max_size" ≡ ok m
    → let x = size_of c.default_size d (pos 20) in
      let y = size_of c.max_size m (pos 100) in
      ((pos 1 ≤ℤ x) × (x ≤ℤ y)) ↔ (
        (c' : ReadsConfig) × (finalize int_env c ≡ ok c')
        × (limits c' ≡ ok (record { default_size = x; max_size = y })))
unfolding finalize
finalize_iff int_env c d m h k =
    let w = with_defaults c in
    let r : ReadsConfig = record {
      default_size = overlay w.default_size d;
      max_size = overlay w.max_size m;
    } in
    let (limited, checked) = check-overlay c d m in
    let ran = finalize_lem int_env c d m h k in
    (λ b. (r, ran ∙ checked.0 b, limited), λ p. checked.1 (accepted r p.0 (sym ran ∙ p.1)))

-- A policy that a handler can be given: its default size is one at least, its maximum no less.
pub record IsLimited (c : ReadsConfig) : Type 0 where
  pub sizes : Limits
  pub limited : limits c ≡ ok sizes
  pub at_least_one : pos 1 ≤ℤ sizes.default_size
  pub at_most_max : sizes.default_size ≤ℤ sizes.max_size

passed :
    (c : ReadsConfig) (l : Limits) {c' : ReadsConfig} → limits c ≡ ok l → check c ≡ ok c' → c ≡ c'
unfolding check
passed c l h k = ground arith

check-IsLimited : (c : ReadsConfig) {c' : ReadsConfig} → check c ≡ ok c' → IsLimited c'
unfolding check
check-IsLimited c {c'} h = elim (result_cases (limits c)) [
  | inl (l, limited) ↦ subst IsLimited (passed c l limited h) (record {
    sizes = l;
    limited = limited;
    at_least_one = ground arith;
    at_most_max = ground arith;
  })
  | inr (e, unset) ↦ absurd (ground arith)
]

pub finalize-IsLimited :
    (int_env : String → Result (Option ℤ)) (c : ReadsConfig) {c' : ReadsConfig}
    → finalize int_env c ≡ ok c'
    → IsLimited c'
unfolding finalize override
finalize-IsLimited int_env c h = elim (result_cases (int_env "reads_default_size")) [
  | inr (e, refused) ↦ absurd (ground arith)
  | inl (d, found) ↦ elim (result_cases (int_env "reads_max_size")) [
    | inr (e, refused) ↦ absurd (ground arith)
    | inl (m, set) ↦
        let w = with_defaults c in
        check-IsLimited
          (record { default_size = overlay w.default_size d; max_size = overlay w.max_size m })
          (sym (finalize_lem int_env c d m found set) ∙ h)
  ]
]
