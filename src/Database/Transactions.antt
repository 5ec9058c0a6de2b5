-- ===== src/Database/Transactions.antt =====
-- Code that runs in a transaction: it takes the state, and returns a value with the new state, or
-- an error. `Emitting` code has the recorder's queue beside the database.
pub mod Steps
use go_web_service.Prelude.{
  String, ◌≡◌, refl, subst, List, [], ◌∷◌, ◌++◌, arith, ◌⊎◌, inl, inr, Error, Result, ok, err,
}
use go_web_service.Database.Events.{Event, EventData}

abbrev pub Tx : Type 0 → Type 0 → Type 0
Tx S A = S → Result (A × S)

infixl 10 ◌>>=◌ ◌>>◌
abbrev pub ◌>>=◌ : {S A B : Type 0} → Tx S A → (A → Tx S B) → Tx S B
◌>>=◌ m f s = elim (m s) [ err e ↦ err e | ok (a, s') ↦ f a s' ]

abbrev pub ◌>>◌ : {S A B : Type 0} → Tx S A → Tx S B → Tx S B
m >> n = m >>= λ _. n

abbrev pub pure : {S A : Type 0} → A → Tx S A
pure a s = ok (a, s)

abbrev pub fail : {S A : Type 0} → Error → Tx S A
fail e s = err e

-- A value or an error that the state does not bear on.
abbrev pub lift : {S A : Type 0} → Result A → Tx S A
lift (ok a) s = ok (a, s)
lift (err e) s = err e

-- A read: the state stays as it is.
abbrev pub reading : {S A : Type 0} → (S → Result A) → Tx S A
reading f s = lift (f s) s

pub record Draft (Db : Type 0) : Type 0 where
  pub db : Db
  pub queue : List Event

abbrev pub Emitting : Type 0 → Type 0 → Type 0
Emitting Db A = Tx (Draft Db) A

-- A step on the database alone.
abbrev pub on_db : {Db A : Type 0} → Tx Db A → Emitting Db A
on_db m d = elim (m d.db) [ err e ↦ err e | ok (a, db') ↦ ok (a, record d { db = db' }) ]

-- EventKind.Raise
abbrev pub raise : {Db : Type 0} → String → EventData → Emitting Db (Unit {0})
raise subject body d =
    ok (tt, record d { queue = d.queue ++ record { subject = subject; body = body } ∷ [] })

-- A step returned a value with the new state, or an error.
pub outcome :
    {S A : Type 0} (x : Result (A × S))
    → ((a : A) × (s : S) × (x ≡ ok (a, s))) ⊎ ((e : Error) × (x ≡ err e))
outcome (ok (a, s)) = inl (a, s, refl)
outcome (err e) = inr (e, refl)

module _ {S A B : Type 0} where
  continue-eq-ok :
      (x : Result (A × S)) (f : A → Tx S B) {r : B × S}
      → elim x [ err e ↦ err e | ok (a, s') ↦ f a s' ] ≡ ok r
      → (a : A) × (s' : S) × (x ≡ ok (a, s')) × (f a s' ≡ ok r)
  continue-eq-ok (ok (a, s')) f h = (a, s', refl, h)
  continue-eq-ok (err e) f h = cc

  -- A chain that succeeds succeeded in its first step, and in the rest after it.
  pub >>=-eq-ok :
      (m : Tx S A) (f : A → Tx S B) (s : S) {r : B × S}
      → (m >>= f) s ≡ ok r
      → (a : A) × (s' : S) × (m s ≡ ok (a, s')) × (f a s' ≡ ok r)
  >>=-eq-ok m f s h = continue-eq-ok (m s) f h

module _ {S A : Type 0} where
  stepped-eq-ok :
      (x : Result (A × S)) (d : Draft S) {r : A × Draft S}
      → (elim x as (λ _. Result (A × Draft S)) [
        | err e ↦ err e
        | ok (a, db') ↦ ok (a, record d { db = db' })
      ])
        ≡ ok r
      → (x ≡ ok (r.0, r.1.db)) × (r.1.queue ≡ d.queue)
  stepped-eq-ok (ok (a, s')) d h = (ground arith, ground arith)
  stepped-eq-ok (err e) d h = cc

  -- A database step of emitting code leaves the queue alone.
  pub on_db-eq-ok :
      (m : Tx S A) (d : Draft S) {r : A × Draft S}
      → on_db m d ≡ ok r
      → (m d.db ≡ ok (r.0, r.1.db)) × (r.1.queue ≡ d.queue)
  on_db-eq-ok m d h = stepped-eq-ok (m d.db) d h

-- A change of the database, then code that follows it, and a value of the change's.
abbrev pub change_then :
    {Db A B : Type 0} → Tx Db A → (A → Emitting Db (Unit {0})) → (A → B) → Emitting Db B
change_then m n k = do a ← on_db m; n a; pure (k a)

module _ {Db A B : Type 0} (n : A → Emitting Db (Unit {0})) (k : A → B) where
  follow-ok :
      (a : A) (y : Result (Unit {0} × Draft Db)) {r : B} {d : Draft Db}
      → (elim y as (λ _. Result (B × Draft Db)) [ err e ↦ err e | ok (_, d') ↦ ok (k a, d') ])
        ≡ ok (r, d)
      → (y ≡ ok (tt, d)) × (r ≡ k a)
  follow-ok a (ok (tt, d')) h = (ground arith, ground arith)
  follow-ok a (err e) h = cc

  pub change_then-ok :
      (m : Tx Db A) (d : Draft Db) {r : B} {d' : Draft Db}
      → change_then m n k d ≡ ok (r, d')
      → (a : A) × (db' : Db) × (m d.db ≡ ok (a, db'))
        × (n a (record { db = db'; queue = d.queue }) ≡ ok (tt, d'))
        × (r ≡ k a)
  change_then-ok m d {d' = d'} h =
      let (a, d1, changed, rest) = >>=-eq-ok (on_db m) (λ a. n a >> pure (k a)) d h in
      let (stood, queue) = on_db-eq-ok m d changed in
      let (followed, value) = follow-ok a (n a d1) rest in
      (
        a,
        d1.db,
        stood,
        subst (λ q. n a (record { db = d1.db; queue = q }) ≡ ok (tt, d')) queue followed,
        value,
      )
