-- ===== src/Organization/Forest/Updates.antt =====
-- What an insert, a change of one row, and a removal do to the tree.
use go_web_service.Prelude.{
  ℕ, suc, String, ◌≡◌, refl, sym, subst, ◌∙◌, true, false, none, some, List, [], ◌∷◌, ◌++◌, arith,
  any, ◌==◌, eq_iff, eq_refl, inl, inr, Option-cases, String-cases,
}
use go_web_service.Organization.Entities.{Organization}
use go_web_service.Organization.Schema.{find_row, remove_row, is_parent, parent_exists}
use go_web_service.Organization.Schema.Rows.{
  find_row-append, find_row-id, find_row-remove, any-find_row,
}
use go_web_service.Organization.Forest.{Rooted, top, under, IsForest}
use go_web_service.Organization.Forest.Walk.{chain, Avoids}

-- A table that has every row of another, with the same parents, has its chains.
abbrev pub KeepsParents : List Organization → List Organization → Type 0
KeepsParents rows rows' =
    (id : String) (r : Organization)
    → find_row id rows ≡ some r
    → (r' : Organization) × (find_row id rows' ≡ some r') × (r'.parent_id ≡ r.parent_id)

module _ {rows rows' : List Organization} (keep : KeepsParents rows rows') where
  pub Rooted-keep : {n : ℕ} {id : String} → Rooted rows n id → Rooted rows' n id
  Rooted-keep {id = id} (top r h e) = let (r', h', e') = keep id r h in top r' h' (e' ∙ e)
  Rooted-keep {id = id} (under r p h e c) =
      let (r', h', e') = keep id r h in under r' p h' (e' ∙ e) (Rooted-keep c)

-- A row under another id than the one at hand.
differ :
    (rows : List Organization) (x id : String) {r : Organization}
    → find_row id rows ≡ some r
    → (r.id == x) ≡ false
    → (x == id) ≡ false
differ rows x id {r} h ne = ground (arith, find_row-id id rows {r = r}, eq_iff r.id x, eq_iff x id)

-- A table that differs from another at one row at most.
abbrev pub AgreeOff : String → List Organization → List Organization → Type 0
AgreeOff x rows rows' = (j : String) → (x == j) ≡ false → find_row j rows' ≡ find_row j rows

module _ {rows rows' : List Organization} (x : String) (agree : AgreeOff x rows rows') where
  -- A chain that avoids the row is a chain still.
  pub Rooted-avoid :
      {n : ℕ} {id : String} (c : Rooted rows n id) → Avoids x (chain c) → Rooted rows' n id
  Rooted-avoid {id = id} (top r h e) a = top r (agree id (differ rows x id h a.0) ∙ h) e
  Rooted-avoid {id = id} (under r p h e c) (ne, a) =
      under r p (agree id (differ rows x id h ne) ∙ h) e (Rooted-avoid c a)

  -- Every chain can be led over the changed row, once that has a chain.
  pub Rooted-over :
      {n m : ℕ} {id : String} → Rooted rows' m x → Rooted rows n id → (k : ℕ) × Rooted rows' k id
  Rooted-over {m = m} {id = id} d (top r h e) = elim (String-cases x id) [
    | inl same ↦ (m, subst (λ y. Rooted rows' m y) same d)
    | inr (_, other) ↦ (1, top r (agree id other ∙ h) e)
  ]
  Rooted-over {m = m} {id = id} d (under r p h e c) = elim (String-cases x id) [
    | inl same ↦ (m, subst (λ y. Rooted rows' m y) same d)
    | inr (_, other) ↦ let (k, c') = Rooted-over d c in (suc k, under r p (agree id other ∙ h) e c')
  ]

  -- So the table is a forest still.
  pub IsForest-over : {m : ℕ} → IsForest rows → Rooted rows' m x → IsForest rows'
  IsForest-over {m} forest d id r h = elim (String-cases x id) [
    | inl same ↦ (m, subst (λ y. Rooted rows' m y) same d)
    | inr (_, other) ↦ let (n, c) = forest id r (sym (agree id other) ∙ h) in Rooted-over d c
  ]

-- An insert: the new row's parent is none, or a row that is there.
module _ (rows : List Organization) (r : Organization) (fresh : find_row r.id rows ≡ none) where
  append-KeepsParents : KeepsParents rows (rows ++ r ∷ [])
  append-KeepsParents id s h = (s, rw (find_row-append id rows r) (rw h refl), refl)

  append-found : find_row r.id (rows ++ r ∷ []) ≡ some r
  append-found = rw (find_row-append r.id rows r) (rw (fresh, eq_refl))

  append-Rooted :
      IsForest rows
      → parent_exists rows r.parent_id ≡ true
      → (n : ℕ) × Rooted (rows ++ r ∷ []) n r.id
  unfolding parent_exists
  append-Rooted forest h = elim (Option-cases r.parent_id) [
    | inl e ↦ (1, top r append-found e)
    | inr (p, e) ↦ elim (Option-cases (find_row p rows)) [
      | inl missing ↦ absurd (ground arith)
      | inr (t, found) ↦
          let (n, c) = forest p t found in
          (suc n, under r p append-found e (Rooted-keep append-KeepsParents c))
    ]
  ]

  pub IsForest-append :
      IsForest rows → parent_exists rows r.parent_id ≡ true → IsForest (rows ++ r ∷ [])
  IsForest-append forest h =
      let (n, c) = append-Rooted forest h in
      λ id s k. elim (Option-cases (find_row id rows)) [
        | inl absent ↦ elim (String-cases r.id id) [
          | inl same ↦ (n, subst (λ y. Rooted (rows ++ r ∷ []) n y) same c)
          | inr (_, other) ↦ absurd (ground (arith, find_row-append id rows r))
        ]
        | inr (t, found) ↦ let (m, d) = forest id t found in (m, Rooted-keep append-KeepsParents d)
      ]

-- A removal of a row that is no parent.
module _ (rows : List Organization) (x : String)
    (childless : any (λ s. is_parent x s.parent_id) rows ≡ false) where
  no_child :
      (id : String) (r : Organization) (p : String)
      → find_row id rows ≡ some r
      → r.parent_id ≡ some p
      → (x == p) ≡ false
  no_child id r p h e =
      let childfree = any-find_row (λ s. is_parent x s.parent_id) id rows {r = r} childless h in
      ground (arith, childfree, eq_iff x p, eq_iff p x)

  Rooted-remove :
      {n : ℕ} {id : String} → (x == id) ≡ false → Rooted rows n id → Rooted (remove_row x rows) n id
  Rooted-remove {id = id} other (top r h e) = top r (rw (find_row-remove, other) h) e
  Rooted-remove {id = id} other (under r p h e c) =
      under r p (rw (find_row-remove, other) h) e (Rooted-remove (no_child id r p h e) c)

  pub IsForest-remove : IsForest rows → IsForest (remove_row x rows)
  IsForest-remove forest id r h = elim (String-cases x id) [
    | inl same ↦ absurd (ground (arith, find_row-remove id x rows, eq_iff x id))
    | inr (_, other) ↦
        let (n, c) = forest id r (ground (arith, find_row-remove id x rows)) in
        (n, Rooted-remove other c)
  ]
