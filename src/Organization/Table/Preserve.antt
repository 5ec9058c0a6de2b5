-- ===== src/Organization/Table/Preserve.antt =====
-- The statements keep the table: an insert of a fresh id, a change of one row, and a removal.
use go_web_service.Prelude.{
  String, ◌≡◌, sym, subst, true, false, none, some, List, [], ◌∷◌, ◌++◌, arith, eq_iff, any, inl,
  inr, ℕ,
}
use go_web_service.Organization.Entities.{Organization}
use go_web_service.Organization.Schema.{
  find_row, remove_row, replace_row, same_key, constraint_fault, parent_exists, is_parent,
}
use go_web_service.Organization.Schema.Rows.{find_row-append, find_row-remove, find_row-replace}
use go_web_service.Organization.Forest.{Rooted}
use go_web_service.Organization.Forest.Updates.{IsForest-append, IsForest-over, IsForest-remove}
use go_web_service.Organization.Table.{IsTable, IsChecked}
use go_web_service.Organization.Table.Keys.{HasKeys-append, HasKeys-replace, HasKeys-remove}
use go_web_service.Organization.Table.Siblings.{AddsOnly, HasSiblings-add}

-- A row that breaks no constraint.
pub record IsAdmitted (others : List Organization) (r : Organization) : Type 0 where
  pub checked : IsChecked r
  pub free : any (same_key r) others ≡ false
  pub parent : parent_exists others r.parent_id ≡ true

pub constraint_fault-IsAdmitted :
    (others : List Organization) (r : Organization)
    → constraint_fault others r ≡ none
    → IsAdmitted others r
unfolding constraint_fault
constraint_fault-IsAdmitted others r h = ground (arith, eq_iff r.name "")

module _ (x : String) (r : Organization) (others rows : List Organization)
    (adds : AddsOnly x r others rows) where
  checks-add :
      IsChecked r
      → ((id : String) (s : Organization) → find_row id others ≡ some s → IsChecked s)
      → (id : String) (s : Organization) → find_row id rows ≡ some s
      → IsChecked s
  checks-add c h id s found = elim (adds id s found) [
    | inl (_, is_r) ↦ subst (λ y. IsChecked y) (sym is_r) c
    | inr (_, other) ↦ h id s other
  ]

append-AddsOnly :
    (rows : List Organization) (r : Organization)
    → find_row r.id rows ≡ none
    → AddsOnly r.id r rows (rows ++ r ∷ [])
append-AddsOnly rows r fresh j a h = ground (arith, find_row-append j rows r, eq_iff r.id j)

replace-AddsOnly :
    (rows : List Organization) (r : Organization)
    → AddsOnly r.id r (remove_row r.id rows) (replace_row r rows)
replace-AddsOnly rows r j a h =
    ground (arith, find_row-replace j r rows, find_row-remove j r.id rows, eq_iff r.id j)

-- What a removal leaves was there.
pub remove-found :
    (rows : List Organization) (x j : String) {a : Organization}
    → find_row j (remove_row x rows) ≡ some a
    → find_row j rows ≡ some a
remove-found rows x j h = ground (arith, find_row-remove j x rows)

pub IsTable-append :
    (rows : List Organization) (r : Organization)
    → IsTable rows
    → find_row r.id rows ≡ none
    → constraint_fault rows r ≡ none
    → IsTable (rows ++ r ∷ [])
IsTable-append rows r t fresh h =
    let ad = constraint_fault-IsAdmitted rows r h in
    let adds = append-AddsOnly rows r fresh in
    record {
      keys = HasKeys-append rows r fresh t.keys;
      checks = checks-add r.id r rows (rows ++ r ∷ []) adds ad.checked t.checks;
      siblings = HasSiblings-add r.id r rows (rows ++ r ∷ []) adds ad.free t.siblings;
      forest = IsForest-append rows r fresh t.forest ad.parent;
    }

-- A change in place keeps the table, once the changed row has a chain.
pub IsTable-replace :
    (rows : List Organization) (r : Organization) (n : ℕ)
    → IsTable rows
    → constraint_fault (remove_row r.id rows) r ≡ none
    → Rooted (replace_row r rows) n r.id
    → IsTable (replace_row r rows)
IsTable-replace rows r n t h c =
    let others = remove_row r.id rows in
    let ad = constraint_fault-IsAdmitted others r h in
    let adds = replace-AddsOnly rows r in
    record {
      keys = HasKeys-replace rows r t.keys;
      checks =
          checks-add r.id r others (replace_row r rows) adds ad.checked
            (λ id s found. t.checks id s (remove-found rows r.id id found));
      siblings = HasSiblings-add r.id r others (replace_row r rows) adds ad.free (λ i j a b ha hb.
          t.siblings i j a b (remove-found rows r.id i ha) (remove-found rows r.id j hb));
      forest = IsForest-over r.id (λ j other. rw (find_row-replace, other)) t.forest c;
    }

pub IsTable-remove :
    (rows : List Organization) (x : String)
    → IsTable rows
    → any (λ s. is_parent x s.parent_id) rows ≡ false
    → IsTable (remove_row x rows)
IsTable-remove rows x t childless = record {
  keys = HasKeys-remove rows x t.keys;
  checks = λ id s found. t.checks id s (remove-found rows x id found);
  siblings =
      λ i j a b ha hb. t.siblings i j a b (remove-found rows x i ha) (remove-found rows x j hb);
  forest = IsForest-remove rows x childless t.forest;
}
