-- ===== src/Organization/Schema/Rows.antt =====
-- Looking up a row after the table changed.
use go_web_service.Prelude.{
  String, ◌≡◌, refl, Bool, false, none, some, List, [], ◌∷◌, ◌++◌, any, arith, if◌then◌else◌, ◌==◌,
  eq_iff, ◌≢◌, ◌≤◌, ◌<◌, length,
}
use go_web_service.Organization.Entities.{Organization}
use go_web_service.Organization.Schema.{find_row, remove_row, replace_row}

module _ (j : String) where
  pub find_row-id :
      (rows : List Organization) {r : Organization} → find_row j rows ≡ some r → r.id ≡ j
  unfolding find_row
  find_row-id [] h = cc
  find_row-id (s ∷ rows) {r} h = ground (arith, find_row-id rows {r = r}, eq_iff s.id j)

  pub find_row-append :
      (rows : List Organization) (r : Organization)
      → find_row j (rows ++ r ∷ [])
        ≡ elim (find_row j rows) [ some s ↦ some s | none ↦ if r.id == j then some r else none ]
  unfolding find_row
  find_row-append [] r = refl
  find_row-append (s ∷ rows) r = ground (arith, find_row-append rows r)

  pub find_row-remove :
      (id : String) (rows : List Organization)
      → find_row j (remove_row id rows) ≡ (if id == j then none else find_row j rows)
  unfolding find_row remove_row
  find_row-remove id [] = ground arith
  find_row-remove id (s ∷ rows) =
      ground (arith, find_row-remove id rows, eq_iff s.id id, eq_iff s.id j, eq_iff id j)

  pub find_row-replace :
      (r : Organization) (rows : List Organization)
      → find_row j (replace_row r rows) ≡ (
          if r.id == j
          then elim (find_row j rows) [ none ↦ none | some _ ↦ some r ]
          else find_row j rows)
  unfolding find_row replace_row
  find_row-replace r [] = ground arith
  find_row-replace r (s ∷ rows) =
      ground (arith, find_row-replace r rows, eq_iff s.id r.id, eq_iff s.id j, eq_iff r.id j)

-- A row that is found is in the table: what no row passes, it does not pass.
pub any-find_row :
    (p : Organization → Bool) (j : String) (rows : List Organization) {r : Organization}
    → any p rows ≡ false
    → find_row j rows ≡ some r
    → p r ≡ false
unfolding find_row
any-find_row p j [] h e = cc
any-find_row p j (s ∷ rows) {r} h e = ground (arith, any-find_row p j rows {r = r})

-- Taking out a row that is there makes the table shorter.
pub length-remove_row :
    (id : String) (rows : List Organization)
    → (length (remove_row id rows) ≤ length rows)
      × (find_row id rows ≢ none → length (remove_row id rows) < length rows)
unfolding find_row remove_row
length-remove_row id [] = ground arith
length-remove_row id (s ∷ rows) = ground (arith, length-remove_row id rows)
