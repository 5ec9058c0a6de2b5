-- ===== src/Data/Seeds/Rows.antt =====
-- What Seed leaves of the database, by what it met.
use go_web_service.Prelude.{
  String, ◌≡◌, refl, sym, ap, ◌∙◌, ◌⊎◌, inl, inr, Option, none, some, List, Error, Result, ok, err,
}
use go_web_service.Database.{Database}
use go_web_service.Database.Engine.{Engine}
use go_web_service.Database.Engine.Commands.{settle-ok, settle-err}
use go_web_service.Data.Seeds.{
  Counts, Report, Seeder, zeros, unread_key, apply_all, write_all, read_seed, written, checked,
  seed_state, seed,
}

module _ {Bytes Json Tree : Type 0} (state_file : String → Option (Result Bytes))
    (decode : Bytes → Result (List (String × Json))) (lost : Error → Counts)
    (en : Engine Tree) where
  -- Nothing is changed, and Seed says why.
  pub record IsKept (r : Report) (db db' : Database Tree) : Type 0 where
    pub kept : db' ≡ db
    pub cause : Error
    pub failure : r.failure ≡ some cause

  -- A known state, with no key unread, applied by every contribution of rows in one commit, and then
  -- the files.
  pub record IsSeeded (s : Seeder Json (Database Tree)) (name : String) (db : Database Tree)
      (r : Report) (db' : Database Tree) : Type 0 where
    pub state : List (String × Json)
    pub known : read_seed state_file decode lost en name ≡ ok state
    pub all_read : unread_key s.all state ≡ none
    pub counts : Counts
    pub rows : Database Tree
    pub applied : apply_all state s.rows (zeros s.all) db ≡ ok (counts, rows)
    pub files : write_all state s.files counts rows ≡ (r, db')

  written-or :
      (s : Seeder Json (Database Tree)) (st : List (String × Json)) (db : Database Tree)
      (x : Result Counts × Database Tree) {r : Report} {db' : Database Tree}
      → en.transact Counts (apply_all st s.rows (zeros s.all)) db ≡ x
      → written state_file decode lost en s st x ≡ (r, db')
      → IsKept r db db'
        ⊎ ((n : Counts) × (db1 : Database Tree) × (apply_all st s.rows (zeros s.all) db
              ≡ ok (n, db1))
            × (write_all st s.files n db1 ≡ (r, db')))
  unfolding written
  written-or s st db (err e, db1) h k = inl (record {
    kept =
        sym (ap (λ p. p.1) k)
        ∙ settle-err en.commit_fault db (apply_all st s.rows (zeros s.all) db)
            (sym (en.transact_lem Counts (apply_all st s.rows (zeros s.all)) db) ∙ h);
    cause = e;
    failure = sym (ap (λ p. p.0.failure) k);
  })
  written-or s st db (ok n, db1) h k = inr (
    n,
    db1,
    settle-ok en.commit_fault db (apply_all st s.rows (zeros s.all) db)
        (sym (en.transact_lem Counts (apply_all st s.rows (zeros s.all)) db) ∙ h),
    k,
  )

  checked-or :
      (s : Seeder Json (Database Tree)) (name : String) (st : List (String × Json))
      (db : Database Tree) (unread : Option String) {r : Report} {db' : Database Tree}
      → read_seed state_file decode lost en name ≡ ok st
      → unread_key s.all st ≡ unread
      → checked state_file decode lost en s st unread db ≡ (r, db')
      → IsKept r db db' ⊎ IsSeeded s name db r db'
  unfolding checked
  checked-or s name st db (some key) h u k = inl (record {
    kept = sym (ap (λ p. p.1) k);
    cause = Error.plain "no contribution reads the key";
    failure = sym (ap (λ p. p.0.failure) k);
  })
  checked-or s name st db none h u k = elim (written-or s st db _ refl k) [
    | inl kept ↦ inl kept
    | inr (n, db1, applied, files) ↦ inr (record {
      state = st;
      known = h;
      all_read = u;
      counts = n;
      rows = db1;
      applied = applied;
      files = files;
    })
  ]

  state-or :
      (s : Seeder Json (Database Tree)) (name : String) (db : Database Tree)
      (x : Result (List (String × Json))) {r : Report} {db' : Database Tree}
      → read_seed state_file decode lost en name ≡ x
      → seed_state state_file decode lost en s x db ≡ (r, db')
      → IsKept r db db' ⊎ IsSeeded s name db r db'
  unfolding seed_state
  state-or s name db (err e) h k =
      inl (record {
        kept = sym (ap (λ p. p.1) k);
        cause = e;
        failure = sym (ap (λ p. p.0.failure) k);
      })
  state-or s name db (ok st) h k = checked-or s name st db (unread_key s.all st) h refl k

  -- A seed that is refused or whose transaction does not commit leaves the database as it is and
  -- returns an error; any other applied a known state, of which every key is read: the rows by all
  -- the contributions of rows, and then, from what they left, the files.
  pub seed-IsSeeded :
      (s : Seeder Json (Database Tree)) (name : String) (db : Database Tree) {r : Report}
      {db' : Database Tree}
      → seed state_file decode lost en s name db ≡ (r, db')
      → IsKept r db db' ⊎ IsSeeded s name db r db'
  unfolding seed
  seed-IsSeeded s name db h = state-or s name db (read_seed state_file decode lost en name) refl h
