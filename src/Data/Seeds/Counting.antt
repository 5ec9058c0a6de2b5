-- ===== src/Data/Seeds/Counting.antt =====
-- What the counts of a seed say.
use go_web_service.Prelude.{
  ℕ, String, ◌≡◌, refl, sym, subst, ap, ◌∙◌, inl, inr, String-cases, ◌≢◌, Option, none, some,
  Option-cases, List, [], ◌∷◌, arith, eq_iff, Error, Result, ok,
}
use go_web_service.Database.{Database}
use go_web_service.Database.Engine.{Engine}
use go_web_service.Database.Transactions.{outcome}
use go_web_service.Data.Seeds.{
  Counts, Report, Seed, FileSeed, Seeder, lookup, set_count, zeros, apply_all, write_all, read_seed,
  seed,
}
use go_web_service.Data.Seeds.Rows.{seed-IsSeeded}

abbrev pub keys_of : Counts → List String
keys_of [] = []
keys_of ((k, n) ∷ m) = k ∷ keys_of m

-- The counts `n` are as `m` but for keys that the state carries.
record IsUpdated {Json : Type 0} (st : List (String × Json)) (m n : Counts) : Type 0 where
  keys : keys_of n ≡ keys_of m
  others : (key : String) → lookup key st ≡ none → lookup key n ≡ lookup key m

set_count-keys : (k : String) (c : ℕ) (n : Counts) → keys_of (set_count k c n) ≡ keys_of n
unfolding set_count
set_count-keys k c [] = refl
set_count-keys k c ((j, a) ∷ n) = ap (λ l. j ∷ l) (set_count-keys k c n)

lookup-set_count :
    (key k : String) (c : ℕ) (n : Counts) → (key ≢ k) → lookup key (set_count k c n) ≡ lookup key n
unfolding set_count lookup
lookup-set_count key k c [] d = refl
lookup-set_count key k c ((j, a) ∷ n) d = elim (String-cases j k) [
  | inl same ↦ grind (arith, lookup-set_count key k c n d, eq_iff)
  | inr (other, test) ↦ rw (test, lookup-set_count key k c n d)
]

module _ {Json : Type 0} (st : List (String × Json)) where
  set_count-IsUpdated :
      (k : String) (c : ℕ) {rows : Json} (m n : Counts)
      → lookup k st ≡ some rows
      → IsUpdated st m n
      → IsUpdated st m (set_count k c n)
  set_count-IsUpdated k c m n h u = record {
    keys = set_count-keys k c n ∙ u.keys;
    others = λ key absent.
        lookup-set_count key k c n (λ same. ground (arith, same, h, absent)) ∙ u.others key absent;
  }

  -- A write that returned no error updated the counts of keys that the state carries.
  write_all-IsUpdated :
      {D : Type 0} (cs : List (FileSeed Json D)) (m n : Counts) (db : D) {r : Report} {db' : D}
      → IsUpdated st m n
      → write_all st cs n db ≡ (r, db')
      → r.failure ≡ none
      → (n' : Counts) × (r.counts ≡ some n') × IsUpdated st m n'
  unfolding write_all
  write_all-IsUpdated [] m n db u h k = (n, sym (ap (λ p. p.0.counts) h), u)
  write_all-IsUpdated (c ∷ cs) m n db u h k = elim (Option-cases (lookup c.key st)) [
    | inl absent ↦ write_all-IsUpdated cs m n db u (rw (write_all, absent) at h) k
    | inr (rows, found) ↦ elim (Option-cases (c.write rows db).0.1) [
      | inr (e, failed) ↦
          let ended = rw (write_all, found, failed) at h in
          absurd (ground (arith, ap (λ p. p.0.failure) ended, k))
      | inl stood ↦
          write_all-IsUpdated cs m (set_count c.key (c.write rows db).0.0 n) (c.write rows db).1
            (set_count-IsUpdated c.key (c.write rows db).0.0 m n found u)
            (rw (write_all, found, stood) at h) k
    ]
  ]

  apply_all-IsUpdated :
      {D : Type 0} (cs : List (Seed Json D)) (m n : Counts) (db : D) {n' : Counts} {db' : D}
      → IsUpdated st m n
      → apply_all st cs n db ≡ ok (n', db')
      → IsUpdated st m n'
  unfolding apply_all
  apply_all-IsUpdated [] m n db u h = subst (λ x. IsUpdated st m x) (ground (arith, h)) u
  apply_all-IsUpdated (c ∷ cs) m n db u h = elim (Option-cases (lookup c.key st)) [
    | inl absent ↦ apply_all-IsUpdated cs m n db u (rw (apply_all, absent) at h)
    | inr (rows, found) ↦ elim (outcome (c.apply rows db)) [
      | inl (inserted, db1, applied) ↦
          apply_all-IsUpdated cs m (set_count c.key inserted n) db1
            (set_count-IsUpdated c.key inserted m n found u) (rw (apply_all, found, applied) at h)
      | inr (e, refused) ↦
          let failed = rw (apply_all, found, refused) at h in absurd (ground (arith, failed))
    ]
  ]

unchanged : {Json : Type 0} (st : List (String × Json)) (m : Counts) → IsUpdated st m m
unchanged st m = record { keys = refl; others = λ key absent. refl }

module _ {Bytes Json Tree : Type 0} (state_file : String → Option (Result Bytes))
    (decode : Bytes → Result (List (String × Json))) (lost : Error → Counts)
    (en : Engine Tree) where
  -- A seed that returns no error counts for exactly the contributions' keys, in their order, and its
  -- count stays zero under a key that the state does not carry.
  pub seed-counts :
      (s : Seeder Json (Database Tree)) (name key : String) (st : List (String × Json))
      (db : Database Tree) {r : Report} {db' : Database Tree}
      → read_seed state_file decode lost en name ≡ ok st
      → lookup key st ≡ none
      → seed state_file decode lost en s name db ≡ (r, db')
      → r.failure ≡ none
      → (n : Counts) × (r.counts ≡ some n)
        × (keys_of n ≡ keys_of (zeros s.all))
        × (lookup key n ≡ lookup key (zeros s.all))
  seed-counts s name key st db {r} {db'} known absent h k =
      elim (seed-IsSeeded state_file decode lost en s name db h) [
        | inl kept ↦ absurd (ground (arith, kept.failure, k))
        | inr seeded ↦
            let same : seeded.state ≡ st = ground (arith, seeded.known, known) in
            let applied =
              apply_all-IsUpdated seeded.state s.rows (zeros s.all) (zeros s.all) db
                (unchanged seeded.state (zeros s.all)) seeded.applied in
            let (n, counted, u) =
              write_all-IsUpdated seeded.state s.files (zeros s.all) seeded.counts seeded.rows
                applied seeded.files k in
            (n, counted, u.keys, u.others key (ap (λ x. lookup key x) same ∙ absent))
      ]
