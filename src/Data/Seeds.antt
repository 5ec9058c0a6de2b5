-- ===== src/Data/Seeds.antt =====
-- data/seed.go: the seeder over the named states. A panic on a wiring defect is an error. The embedded
-- files are a parameter: `state_file` is the open of a name's file, nothing where that is
-- fs.ErrNotExist. `decode` is encoding/json's on it, a state as the entries of its map, by ascending
-- key. `lost` is the counts that Transact returns beside an error.
pub mod Composition
pub mod Rows
pub mod Counting
mod Tests
use go_web_service.Prelude.{
  ℕ, String, Bool, true, false, Option, none, some, List, [], ◌∷◌, ◌++◌, any, find_first,
  if◌then◌else◌, ◌==◌, Error, Sentinel, Result, ok, err, wrap, wrapping,
}
use go_web_service.Database.{Database}
use go_web_service.Database.Engine.{Engine}
use go_web_service.Database.Transactions.{Tx}

-- A count per key.
abbrev pub Counts : Type 0
Counts = List (String × ℕ)

-- The value under a key of a map.
unfoldable pub lookup : {A : Type 0} → String → List (String × A) → Option A
lookup key [] = none
lookup key ((k, a) ∷ m) = let rest = lookup key m in if k == key then some a else rest

-- `n[key] = count`, on a map that has the key
unfoldable pub set_count : String → ℕ → Counts → Counts
set_count key count [] = []
set_count key count ((k, a) ∷ m) = (k, if k == key then count else a) ∷ set_count key count m

-- What Seed returns: the counts, nothing for nil, and its error.
pub record Report : Type 0 where
  pub counts : Option Counts
  pub failure : Option Error

abbrev pub ended : Counts → Option Error → Report
ended n failure = record { counts = some n; failure = failure }

module _ (Json D : Type 0) where
  -- Apply, in the seed's transaction.
  abbrev pub Apply : Type 0
  Apply = Json → Tx D ℕ

  -- Write, outside any transaction: what it stored stands whether or not it returns an error.
  abbrev pub Write : Type 0
  Write = Json → D → (ℕ × Option Error) × D

  -- A contribution with the methods it has.
  pub record Contribution : Type 0 where
    pub key : String
    pub apply : Option Apply
    pub write : Option Write

  pub record Seed : Type 0 where
    pub key : String
    pub apply : Apply

  pub record FileSeed : Type 0 where
    pub key : String
    pub write : Write

  pub record Seeder : Type 0 where
    pub all : List Contribution
    pub rows : List Seed
    pub files : List FileSeed

module _ {Json D : Type 0} where
  -- NewSeeder's switch on the contribution's kind.
  unfoldable pub sorted_in : Contribution Json D → Seeder Json D → Result (Seeder Json D)
  sorted_in c s = elim c.apply [
    | some apply ↦ elim c.write [
      | some write ↦ err (Error.plain "both a Seed and a FileSeed")
      | none ↦ ok (record s { rows = s.rows ++ record { key = c.key; apply = apply } ∷ [] })
    ]
    | none ↦ elim c.write [
      | some write ↦ ok (record s { files = s.files ++ record { key = c.key; write = write } ∷ [] })
      | none ↦ err (Error.plain "neither a Seed nor a FileSeed")
    ]
  ]

  -- NewSeeder's loop, after the keys in `keys`.
  unfoldable pub compose :
      List String → Seeder Json D → List (Contribution Json D) → Result (Seeder Json D)
  unfolding sorted_in
  compose keys s [] = ok s
  compose keys s (c ∷ cs) = elim (any (λ k. k == c.key) keys) [
    | true ↦ err (Error.plain "two seed contributions under one key")
    | false ↦ elim (sorted_in c s) [ err e ↦ err e | ok s' ↦ compose (c.key ∷ keys) s' cs ]
  ]

  unfoldable pub new_seeder : List (Contribution Json D) → Result (Seeder Json D)
  unfolding compose
  new_seeder cs = compose [] (record { all = cs; rows = []; files = [] }) cs

  -- The map that every contribution's key is set to zero in.
  abbrev pub zeros : List (Contribution Json D) → Counts
  zeros [] = []
  zeros (c ∷ cs) = (c.key, 0) ∷ zeros cs

  -- A key of the state that no contribution reads, the first in order.
  unfoldable pub unread_key : List (Contribution Json D) → List (String × Json) → Option String
  unread_key cs [] = none
  unread_key cs ((key, rows) ∷ st) =
      let rest = unread_key cs st in
      if any (λ (c : Contribution Json D). c.key == key) cs then rest else some key

  -- The loop over the rows, in the transaction.
  unfoldable pub apply_all : List (String × Json) → List (Seed Json D) → Counts → Tx D Counts
  apply_all st [] n db = ok (n, db)
  apply_all st (c ∷ cs) n db = elim (lookup c.key st) [
    | none ↦ apply_all st cs n db
    | some rows ↦ elim (c.apply rows db) [
      | err e ↦ err e
      | ok (inserted, db') ↦ apply_all st cs (set_count c.key inserted n) db'
    ]
  ]

  -- The loop over the files, once the rows are committed.
  unfoldable pub write_all : List (String × Json) → List (FileSeed Json D) → Counts → D → Report × D
  write_all st [] n db = (ended n none, db)
  write_all st (c ∷ cs) n db = elim (lookup c.key st) [
    | none ↦ write_all st cs n db
    | some rows ↦
        let ((stored, failure), db') = c.write rows db in
        elim failure [
          | some e ↦ (ended (set_count c.key stored n) (some (wrap "seed" e)), db')
          | none ↦ write_all st cs (set_count c.key stored n) db'
        ]
  ]

module _ {Bytes Json Tree : Type 0} (state_file : String → Option (Result Bytes))
    (decode : Bytes → Result (List (String × Json))) (lost : Error → Counts)
    (en : Engine Tree) where
  unfoldable pub decoded : Result Bytes → Result (List (String × Json))
  decoded (err e) = err (wrap "seed" e)
  decoded (ok bytes) = wrapping "seed" (decode bytes)

  -- readSeed
  unfoldable pub read_seed : String → Result (List (String × Json))
  unfolding decoded
  read_seed name = elim (state_file name) [
    | none ↦ err (wrap name (Error.sentinel Sentinel.unknown_state))
    | some opened ↦ decoded opened
  ]

  unfoldable pub written :
      Seeder Json (Database Tree)
      → List (String × Json)
      → Result Counts × Database Tree
      → Report × Database Tree
  written s st (err e, db) = (ended (lost e) (some e), db)
  written s st (ok n, db) = write_all st s.files n db

  -- Seed past the check of the state's keys, which may have found an unread one.
  unfoldable pub checked :
      Seeder Json (Database Tree)
      → List (String × Json)
      → Option String
      → Database Tree
      → Report × Database Tree
  unfolding written
  checked s st (some key) db =
      (record { counts = none; failure = some (Error.plain "no contribution reads the key") }, db)
  checked s st none db = written s st (en.transact Counts (apply_all st s.rows (zeros s.all)) db)

  unfoldable pub seed_state :
      Seeder Json (Database Tree)
      → Result (List (String × Json))
      → Database Tree
      → Report × Database Tree
  unfolding checked
  seed_state s (err e) db = (record { counts = none; failure = some e }, db)
  seed_state s (ok st) db = checked s st (unread_key s.all st) db

  unfoldable pub seed :
      Seeder Json (Database Tree) → String → Database Tree → Report × Database Tree
  unfolding read_seed seed_state
  seed s name db = seed_state s (read_seed name) db
