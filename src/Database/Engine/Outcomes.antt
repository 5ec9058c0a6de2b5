-- ===== src/Database/Engine/Outcomes.antt =====
-- What a transaction leaves, by what its function returned.
use go_web_service.Prelude.{◌++◌, Option, none, some, Error, Result, ok, err}
use go_web_service.Database.{Database}
use go_web_service.Database.Transactions.{Draft}

abbrev pub committed : {S A : Type 0} → Option Error → S → A → S → Result A × S
committed none s a s' = (ok a, s')
committed (some e) s a s' = (err e, s)

-- Back to the state before the transaction, unless its function returned no error and the commit
-- stood.
abbrev pub settle : {S A : Type 0} → (S → Option Error) → S → Result (A × S) → Result A × S
settle fault s (err e) = (err e, s)
settle fault s (ok (a, s')) = committed (fault s') s a s'

-- The database once the draft's events stand in the outbox.
abbrev pub published : {Tree : Type 0} → Draft (Database Tree) → Database Tree
published d = let db = d.db in record db { outbox = db.outbox ++ d.queue }

abbrev pub written :
    {Tree A : Type 0} → Option Error → A → Draft (Database Tree) → Result (A × Database Tree)
written none a d = ok (a, published d)
written (some e) a d = err e

abbrev pub recorded :
    {Tree A : Type 0}
    → (Draft (Database Tree) → Option Error)
    → Result (A × Draft (Database Tree))
    → Result (A × Database Tree)
recorded fault (err e) = err e
recorded fault (ok (a, d)) = written (fault d) a d
