-- ===== src/Database/Transactions/Steps.antt =====
-- What each kind of step did, in a chain that succeeds.
use go_web_service.Prelude.{
  Bool, true, false, ◌≡◌, refl, arith, if◌then◌else◌, Error, Result, ok, err,
}
use go_web_service.Database.Transactions.{
  Tx, Draft, Emitting, ◌>>=◌, pure, fail, lift, reading, on_db,
}

module _ {S A B : Type 0} where
  lift-then-ok :
      (x : Result A) (s : S) (f : A → Tx S B) {r : B × S}
      → (elim (lift x s) as (λ _. Result (B × S)) [ err e ↦ err e | ok (a, s') ↦ f a s' ]) ≡ ok r
      → (a : A) × (x ≡ ok a) × (f a s ≡ ok r)
  lift-then-ok (ok a) s f h = (a, refl, h)
  lift-then-ok (err e) s f h = cc

  -- A read that a chain passes returned a value, and left the state.
  pub reading-then-ok :
      (g : S → Result A) (s : S) (f : A → Tx S B) {r : B × S}
      → (reading g >>= f) s ≡ ok r
      → (a : A) × (g s ≡ ok a) × (f a s ≡ ok r)
  reading-then-ok g s f h = lift-then-ok (g s) s f h

module _ {S B : Type 0} where
  -- A refusal under a test that a chain passes did not apply.
  pub refusal-then-ok :
      (b : Bool) (e : Error) (s : S) (f : Unit {0} → Tx S B) {r : B × S}
      → ((if b then fail e else pure tt) >>= f) s ≡ ok r
      → (b ≡ false) × (f tt s ≡ ok r)
  refusal-then-ok true e s f h = cc
  refusal-then-ok false e s f h = (refl, h)

module _ {Db A B : Type 0} where
  drafted-then-ok :
      (x : Result (A × Db)) (d : Draft Db) (f : A → Emitting Db B) {r : B × Draft Db}
      → (elim (elim x as (λ _. Result (A × Draft Db)) [
        | err e ↦ err e
        | ok (a, db') ↦ ok (a, record d { db = db' })
      ])
          as (λ _. Result (B × Draft Db)) [ err e ↦ err e | ok (a, s') ↦ f a s' ])
        ≡ ok r
      → (a : A) × (db' : Db) × (x ≡ ok (a, db')) × (f a (record d { db = db' }) ≡ ok r)
  drafted-then-ok (ok (a, db')) d f h = (a, db', refl, h)
  drafted-then-ok (err e) d f h = cc

  -- A database step that a chain passes returned a value with the new database.
  pub on_db-then-ok :
      (m : Tx Db A) (d : Draft Db) (f : A → Emitting Db B) {r : B × Draft Db}
      → (on_db m >>= f) d ≡ ok r
      → (a : A) × (db' : Db) × (m d.db ≡ ok (a, db')) × (f a (record d { db = db' }) ≡ ok r)
  on_db-then-ok m d f h = drafted-then-ok (m d.db) d f h

module _ {S A : Type 0} where
  -- A last step that returns a value.
  pub pure-eq-ok : (a b : A) (s s' : S) → pure a s ≡ ok (b, s') → (b ≡ a) × (s' ≡ s)
  pure-eq-ok a b s s' h = (ground arith, ground arith)
