-- ===== src/Organization/Backend/Sample.antt =====
-- A backend whose laws are proved: the guard computes on the row, and a new id is longer than every
-- id of the table.
use go_web_service.Prelude.{
  ℕ, zero, suc, ◌+◌, ◌<◌, String, ◌≡◌, refl, true, ◌&&◌, ◌==◌, ◌=ℕ=◌, Option, none, some, List, [],
  ◌∷◌, arith, is, inl, inr, String-cases, ap, Error, Sentinel, sentinel, Result, ok,
}
use go_web_service.Database.Engine.Sample.{engine}
use go_web_service.Organization.Backend.{Backend}
use go_web_service.Organization.Entities.{Organization}
use go_web_service.Organization.Schema.{find_row}
use go_web_service.Organization.Statements.Guard.{Guard, guarded}

abbrev pub refusal : Option ℕ → Error
refusal none = sentinel Sentinel.no_rows
refusal (some v) = sentinel Sentinel.version_mismatch

pub absent-no_rows : is (refusal none) Sentinel.no_rows ≡ true
unfolding is
absent-no_rows = refl

pub stale-version_mismatch : (v : ℕ) → is (refusal (some v)) Sentinel.version_mismatch ≡ true
unfolding is
stale-version_mismatch v = refl

abbrev pub guard : {Db : Type 0} → Guard Db
guard = record {
  matches = λ id v r. r.id == id && r.version =ℕ= v;
  matches_lem = λ id v r. refl;
  advance = λ db r. record r { version = r.version + 1 };
  advance_id = λ db r. refl;
  advance_parent_id = λ db r. refl;
  advance_code = λ db r. refl;
  advance_name = λ db r. refl;
  advance_version = λ db r. refl;
  run = λ statement check v db. guarded refusal (check db) v (statement db);
  refusal = refusal;
  run_lem = λ statement check v db. refl;
  refusal_absent = absent-no_rows;
  refusal_stale = stale-version_mismatch;
}

abbrev pub size : String → ℕ
size String.[] = 0
size (String.◌∷◌ c s) = suc (size s)

abbrev pub total : List Organization → ℕ
total [] = 0
total (r ∷ rs) = size r.id + total rs

abbrev pub repeat : ℕ → String
repeat zero = ""
repeat (suc n) = String.◌∷◌ "a" (repeat n)

size-repeat : (n : ℕ) → size (repeat n) ≡ n
size-repeat zero = refl
size-repeat (suc n) = ap suc (size-repeat n)

pub longer-is-absent :
    (n : ℕ) (rows : List Organization) → total rows < n → find_row (repeat n) rows ≡ none
unfolding find_row
longer-is-absent n [] h = refl
longer-is-absent n (r ∷ rs) h = elim (String-cases r.id (repeat n)) [
  | inl same ↦ absurd (omega (arith, ap size same, size-repeat n, h))
  | inr (_, other) ↦ rw (other, longer-is-absent n rs (omega arith))
]

pub same_state :
    {S : Type 0} {s s' : S} → ◌≡◌ {A = Result (Unit {0} × S)} (ok (tt, s)) (ok (tt, s')) → s' ≡ s
same_state h = ground arith

abbrev pub backend : {Tree : Type 0} → Backend Tree
backend = record {
  engine = engine;
  guard = guard;
  mint = λ db. repeat (suc (total db.organizations));
  mint_fresh = λ db. longer-is-absent (suc (total db.organizations)) db.organizations (omega arith);
  now = λ db. 0;
  lock = λ db. ok (tt, db);
  lock_lem = same_state;
}
