-- ===== src/Organization/Statements/Guard.antt =====
-- sqlate's guard, as a parameter: the patterns guard_where and guard_set, and Guard.Run.
use go_web_service.Prelude.{
  ℕ, zero, suc, ◌+◌, String, ◌≡◌, Bool, true, ◌&&◌, ◌==◌, ◌=ℕ=◌, Option, none, some, Error,
  Sentinel, is, Result, ok, err,
}
use go_web_service.Database.Transactions.{Tx}
use go_web_service.Organization.Entities.{Organization}

-- What a guarded statement that changed `n` rows comes to: the advanced version, or the refusal
-- that the check's row decides.
abbrev pub guarded :
    {Db : Type 0} → (Option ℕ → Error) → Option ℕ → ℕ → Result (ℕ × Db) → Result (ℕ × Db)
guarded refusal current version (err e) = err e
guarded refusal current version (ok (zero, db)) = err (refusal current)
guarded refusal current version (ok (suc n, db')) = ok (version + 1, db')

pub record Guard (Db : Type 0) : Type 0 where
  -- {{> sql.guard_where}}: the row under the id, at the version.
  pub matches : String → ℕ → Organization → Bool
  pub matches_lem :
      (id : String) (version : ℕ) (r : Organization)
      → matches id version r ≡ (r.id == id && r.version =ℕ= version)
  -- {{> sql.guard_set}}: the version advanced, and the time of the update.
  pub advance : Db → Organization → Organization
  pub advance_id : (db : Db) (r : Organization) → (advance db r).id ≡ r.id
  pub advance_parent_id : (db : Db) (r : Organization) → (advance db r).parent_id ≡ r.parent_id
  pub advance_code : (db : Db) (r : Organization) → (advance db r).code ≡ r.code
  pub advance_name : (db : Db) (r : Organization) → (advance db r).name ≡ r.name
  pub advance_version : (db : Db) (r : Organization) → (advance db r).version ≡ r.version + 1
  -- Guard.Run: the statement at the version, then the check if it changed no row.
  pub run : Tx Db ℕ → (Db → Option ℕ) → ℕ → Tx Db ℕ
  pub refusal : Option ℕ → Error
  pub run_lem :
      (statement : Tx Db ℕ) (check : Db → Option ℕ) (version : ℕ) (db : Db)
      → run statement check version db ≡ guarded refusal (check db) version (statement db)
  pub refusal_absent : is (refusal none) Sentinel.no_rows ≡ true
  pub refusal_stale : (v : ℕ) → is (refusal (some v)) Sentinel.version_mismatch ≡ true
