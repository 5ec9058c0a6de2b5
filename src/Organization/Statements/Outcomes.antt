-- ===== src/Organization/Statements/Outcomes.antt =====
-- What a statement that succeeds did to the rows.
use go_web_service.Prelude.{
  ℕ, zero, suc, String, ◌≡◌, ◌+◌, Bool, true, false, Option, none, some, List, [], ◌∷◌, ◌++◌, arith,
  ◌⊎◌, inl, inr, Bool-cases, Result, ok, err, Error,
}
use go_web_service.Database.{Database}
use go_web_service.Database.Transactions.{Tx}
use go_web_service.Organization.Entities.{Organization, CreateOrganization, Identity}
use go_web_service.Organization.Schema.{find_row, remove_row, replace_row, constraint_fault}
use go_web_service.Organization.Statements.{
  with_rows, new_row, insert_row, update_row, delete_row, is_referenced,
}
use go_web_service.Organization.Statements.Guard.{Guard, guarded}
use go_web_service.Organization.Table.Keys.{KeysIn}

module _ {Tree : Type 0} (mint : Database Tree → String) (now : Database Tree → ℕ) where
  pub insert_row-ok :
      (c : CreateOrganization) (db : Database Tree) {i : Identity} {db' : Database Tree}
      → insert_row mint now c db ≡ ok (i, db')
      → (constraint_fault db.organizations (new_row mint now c.parent_id c.code c.name db) ≡ none)
        × (i ≡ record { id = mint db; version = 1 })
        × (db'
            ≡ with_rows db (db.organizations ++ new_row mint now c.parent_id c.code c.name db ∷ []))
  unfolding insert_row new_row
  insert_row-ok c db h = (ground arith, ground arith, ground arith)

module _ {Tree : Type 0} (matches : Organization → Bool) (change : Organization → Organization)
    (db : Database Tree) where
  pub record IsUpdated (n : ℕ) (db' : Database Tree) : Type 0 where
    pub row : Organization
    pub matched : matches row ≡ true
    pub found : find_row row.id db.organizations ≡ some row
    pub admitted : constraint_fault (remove_row row.id db.organizations) (change row) ≡ none
    pub one : n ≡ 1
    pub result : db' ≡ with_rows db (replace_row (change row) db.organizations)

  -- An update changed no row, or the one row that its test found.
  pub update_row-ok :
      (rows : List Organization) {n : ℕ} {db' : Database Tree}
      → KeysIn db.organizations rows
      → update_row matches change rows db ≡ ok (n, db')
      → ((n ≡ 0) × (db' ≡ db)) ⊎ IsUpdated n db'
  unfolding update_row
  update_row-ok [] k h = inl (ground arith)
  update_row-ok (r ∷ rows) (found, k) h = elim (Bool-cases (matches r)) [
    | inl matched ↦ inr (record {
      row = r;
      matched = matched;
      found = found;
      admitted = ground arith;
      one = ground arith;
      result = ground arith;
    })
    | inr missed ↦ update_row-ok rows k (rw (missed, update_row) at h)
  ]

module _ {Tree : Type 0} (matches : Organization → Bool) (db : Database Tree) where
  pub record IsDeleted (n : ℕ) (db' : Database Tree) : Type 0 where
    pub row : Organization
    pub matched : matches row ≡ true
    pub found : find_row row.id db.organizations ≡ some row
    pub unreferenced : is_referenced row.id db ≡ false
    pub one : n ≡ 1
    pub result : db' ≡ with_rows db (remove_row row.id db.organizations)

  -- A delete removed no row, or the one row that its test found, to which no key refers.
  pub delete_row-ok :
      (rows : List Organization) {n : ℕ} {db' : Database Tree}
      → KeysIn db.organizations rows
      → delete_row matches rows db ≡ ok (n, db')
      → ((n ≡ 0) × (db' ≡ db)) ⊎ IsDeleted n db'
  unfolding delete_row
  delete_row-ok [] k h = inl (ground arith)
  delete_row-ok (r ∷ rows) (found, k) h = elim (Bool-cases (matches r)) [
    | inl matched ↦ inr (record {
      row = r;
      matched = matched;
      found = found;
      unreferenced = ground arith;
      one = ground arith;
      result = ground arith;
    })
    | inr missed ↦ delete_row-ok rows k (rw (missed, delete_row) at h)
  ]

guarded-ok :
    {Db : Type 0} (refusal : Option ℕ → Error) (current : Option ℕ) (v : ℕ) (x : Result (ℕ × Db))
    {w : ℕ} {db' : Db}
    → guarded refusal current v x ≡ ok (w, db')
    → (n : ℕ) × (x ≡ ok (suc n, db')) × (w ≡ v + 1)
guarded-ok refusal current v (err e) h = cc
guarded-ok refusal current v (ok (zero, db)) h = cc
guarded-ok refusal current v (ok (suc n, db)) h = (n, ground arith, ground arith)

-- A guarded statement that succeeds changed a row, and answers the advanced version.
pub run-ok :
    {Db : Type 0} (g : Guard Db) (statement : Tx Db ℕ) (check : Db → Option ℕ) (v : ℕ) (db : Db)
    {w : ℕ} {db' : Db}
    → g.run statement check v db ≡ ok (w, db')
    → (n : ℕ) × (statement db ≡ ok (suc n, db')) × (w ≡ v + 1)
run-ok g statement check v db h =
    guarded-ok g.refusal (check db) v (statement db) (rw (g.run_lem statement check v db) at h)
