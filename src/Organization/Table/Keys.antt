-- ===== src/Organization/Table/Keys.antt =====
-- The primary key: an insert of a fresh id, a change of a row in place, and a removal keep it.
use go_web_service.Prelude.{
  String, ◌≡◌, none, some, List, [], ◌∷◌, ◌++◌, All, All-append, arith, ◌==◌, eq_iff, eq_refl,
  Bool-cases, inl, inr,
}
use go_web_service.Organization.Entities.{Organization}
use go_web_service.Organization.Schema.{find_row, remove_row, replace_row}
use go_web_service.Organization.Schema.Rows.{find_row-append, find_row-remove, find_row-replace}
use go_web_service.Organization.Table.{HasKeys}

abbrev pub KeysIn : List Organization → List Organization → Type 0
KeysIn table rows = All (λ r. find_row r.id table ≡ some r) rows

KeysIn-append :
    (table rows : List Organization) (r : Organization)
    → KeysIn table rows
    → KeysIn (table ++ r ∷ []) rows
KeysIn-append table [] r h = tt
KeysIn-append table (s ∷ rows) r (k, h) =
    (rw (find_row-append s.id table r) (rw k), KeysIn-append table rows r h)

pub HasKeys-append :
    (rows : List Organization) (r : Organization)
    → find_row r.id rows ≡ none
    → HasKeys rows
    → HasKeys (rows ++ r ∷ [])
HasKeys-append rows r fresh h =
    All-append (λ s. find_row s.id (rows ++ r ∷ []) ≡ some s) rows (r ∷ [])
      (KeysIn-append rows rows r h) (rw (find_row-append r.id rows r) (rw (fresh, eq_refl)), tt)

KeysIn-replace :
    (table rows : List Organization) (r : Organization)
    → KeysIn table rows
    → KeysIn (replace_row r table) (replace_row r rows)
unfolding replace_row
KeysIn-replace table [] r h = tt
KeysIn-replace table (s ∷ rows) r (k, h) = (
  ground (
    arith,
    find_row-replace s.id r table,
    find_row-replace r.id r table,
    eq_iff s.id r.id,
    eq_iff r.id s.id,
    eq_iff r.id r.id,
  ),
  KeysIn-replace table rows r h,
)

pub HasKeys-replace :
    (rows : List Organization) (r : Organization) → HasKeys rows → HasKeys (replace_row r rows)
HasKeys-replace rows r h = KeysIn-replace rows rows r h

KeysIn-remove :
    (table rows : List Organization) (id : String)
    → KeysIn table rows
    → KeysIn (remove_row id table) (remove_row id rows)
unfolding remove_row
KeysIn-remove table [] id h = tt
KeysIn-remove table (s ∷ rows) id (k, h) = elim (Bool-cases (s.id == id)) [
  | inl same ↦ rw same (KeysIn-remove table rows id h)
  | inr other ↦ rw other (
    ground (arith, find_row-remove s.id id table, eq_iff s.id id, eq_iff id s.id),
    KeysIn-remove table rows id h,
  )
]

pub HasKeys-remove :
    (rows : List Organization) (id : String) → HasKeys rows → HasKeys (remove_row id rows)
HasKeys-remove rows id h = KeysIn-remove rows rows id h
