-- ===== src/Database/Engine/Commands.antt =====
-- The shape of every command that changes rows: emitting code, recorded, in one transaction.
use go_web_service.Prelude.{◌≡◌, [], Option, none, Error, Result, ok, err, arith}
use go_web_service.Database.{Database}
use go_web_service.Database.Transactions.{Draft, Emitting}
use go_web_service.Database.Engine.{Engine, settle, recorded, published}

module _ {Tree A : Type 0} (en : Engine Tree) (f : Emitting (Database Tree) A) where
  -- s.db.Transact(ctx, s.events.Emit(ctx, f))
  abbrev pub command : Database Tree → Result A × Database Tree
  command db = en.transact A (en.emit A f) db

pub settle-ok :
    {S A : Type 0} (fault : S → Option Error) (s : S) (x : Result (A × S)) {a : A} {s' : S}
    → settle fault s x ≡ (ok a, s')
    → x ≡ ok (a, s')
settle-ok fault s (err e) h = ground arith
settle-ok fault s (ok (b, t)) h = ground arith

pub settle-err :
    {S A : Type 0} (fault : S → Option Error) (s : S) (x : Result (A × S)) {e : Error} {s' : S}
    → settle fault s x ≡ (err e, s')
    → s' ≡ s
settle-err fault s (err e) h = ground arith
settle-err fault s (ok (b, t)) h = ground arith

pub recorded-ok :
    {Tree A : Type 0} (fault : Draft (Database Tree) → Option Error)
    (x : Result (A × Draft (Database Tree))) {a : A} {db' : Database Tree}
    → recorded fault x ≡ ok (a, db')
    → (d : Draft (Database Tree)) × (x ≡ ok (a, d)) × (db' ≡ published d)
recorded-ok fault (err e) h = cc
recorded-ok fault (ok (b, d)) h = (d, ground arith, ground arith)

module _ {Tree A : Type 0} (en : Engine Tree) (f : Emitting (Database Tree) A)
    (db : Database Tree) where
  -- A command that returns a value did what its function did, and its events stand.
  pub command-ok :
      {a : A} {db' : Database Tree}
      → command en f db ≡ (ok a, db')
      → (d : Draft (Database Tree)) × (f (record { db = db; queue = [] }) ≡ ok (a, d))
        × (db' ≡ published d)
  command-ok h = recorded-ok en.publish_fault (f (record { db = db; queue = [] })) (
      rw (en.emit_lem A f db) at (
        settle-ok en.commit_fault db (en.emit A f db)
          (rw (en.transact_lem A (en.emit A f) db) at h)))

  -- A command that returns an error leaves the rows and the outbox as they were.
  pub command-err : {e : Error} {db' : Database Tree} → command en f db ≡ (err e, db') → db' ≡ db
  command-err h =
      settle-err en.commit_fault db (en.emit A f db) (rw (en.transact_lem A (en.emit A f) db) at h)

  -- The error of a command's function is the command's.
  pub command-fails :
      {e : Error} → f (record { db = db; queue = [] }) ≡ err e → command en f db ≡ (err e, db)
  command-fails h = rw (en.transact_lem, en.emit_lem, h)

  -- Where neither the outbox nor the commit is refused, what the function did stands.
  pub command-stands :
      {a : A} {d : Draft (Database Tree)}
      → f (record { db = db; queue = [] }) ≡ ok (a, d)
      → en.publish_fault d ≡ none
      → en.commit_fault (published d) ≡ none
      → command en f db ≡ (ok a, published d)
  command-stands h p c = rw (en.transact_lem, en.emit_lem, h, p, c)
