-- ===== src/Organization/Forest/Walk.antt =====
-- The walk of in_subtree.sql over a forest: it ends within its fuel, and it counts the node exactly
-- if it is on the chain.
use go_web_service.Prelude.{
  ℕ, zero, suc, String, ◌≡◌, refl, sym, ap, subst, ◌∙◌, ◌≢◌, ◌≤◌, ◌<◌, Option, none, some, List, [],
  ◌∷◌, arith, length, All, false, ◌↔◌, ◌==◌, inl, inr, keep, String-cases,
}
use go_web_service.Organization.Entities.{Organization}
use go_web_service.Organization.Schema.{find_row, remove_row}
use go_web_service.Organization.Schema.Rows.{find_row-remove, length-remove_row}
use go_web_service.Organization.Statements.{ancestors, in_subtree}
use go_web_service.Organization.Forest.{Rooted, top, under}

some-injective : {r s : Organization} → some r ≡ some s → r ≡ s
some-injective h = cc

-- What is found at one id has one parent.
parent-eq :
    (rows : List Organization) (id : String) (r s : Organization)
    → find_row id rows ≡ some r
    → find_row id rows ≡ some s
    → r.parent_id ≡ s.parent_id
parent-eq rows id r s h k = ap (λ (x : Organization). x.parent_id) (some-injective (sym h ∙ k))

text-injective : {p q : String} → some p ≡ some q → p ≡ q
text-injective h = cc

module _ {rows : List Organization} where
  -- The chain at an id has one length.
  pub Rooted-unique : {n m : ℕ} {id : String} → Rooted rows n id → Rooted rows m id → n ≡ m
  Rooted-unique (top r h e) (top s k f) = refl
  Rooted-unique {id} (top r h e) (under s q k f d) = cc (parent-eq rows id r s h k)
  Rooted-unique {id} (under r p h e c) (top s k f) = cc (parent-eq rows id r s h k)
  Rooted-unique {id} (under r p h e c) (under {n = l} s q k f d) = ap suc (
      Rooted-unique c (
        subst (λ x. Rooted rows l x) (text-injective (sym f ∙ sym (parent-eq rows id r s h k) ∙ e))
          d))

  -- A row whose chain has another length is another row.
  find_row-other :
      {n m : ℕ} {id x : String} {r : Organization}
      → Rooted rows n id
      → Rooted rows m x
      → n < m
      → find_row id rows ≡ some r
      → find_row id (remove_row x rows) ≡ some r
  find_row-other {n} {m} {id} {x} {r} c d lt h = elim (String-cases x id) [
    | inl same ↦ absurd (omega (arith, Rooted-unique c (subst (λ y. Rooted rows m y) same d)))
    | inr (_, other) ↦ rw find_row-remove (rw other h)
  ]

  -- A chain does not pass a row whose own chain is longer, and needs no such row.
  without :
      {n m : ℕ} {id x : String}
      → Rooted rows n id
      → Rooted rows m x
      → n < m
      → Rooted (remove_row x rows) n id
  without (top r h e) c lt = top r (find_row-other (top r h e) c lt h) e
  without (under r p h e d) c lt =
      under r p (find_row-other (under r p h e d) c lt h) e (without d c (omega arith))

found-ne-none : {o : Option Organization} {r : Organization} → o ≡ some r → o ≢ none
found-ne-none h k = cc

-- No chain is longer than the table.
pub Rooted-le-length :
    (n : ℕ) (rows : List Organization) {id : String} → Rooted rows n id → n ≤ length rows
Rooted-le-length zero rows c = omega arith
Rooted-le-length (suc n) rows {id} (top r h e) =
    omega (arith, (length-remove_row id rows).1 (found-ne-none h))
Rooted-le-length (suc n) rows {id} (under r p h e d) = omega (
  arith,
  Rooted-le-length n (remove_row id rows) (without d (under r p h e d) (omega arith)),
  (length-remove_row id rows).1 (found-ne-none h),
)

-- The rows on a chain, from the row itself up to the root.
abbrev pub chain :
    {rows : List Organization} {n : ℕ} {id : String} → Rooted rows n id → List Organization
chain (top r h e) = r ∷ []
chain (under r p h e c) = r ∷ chain c

-- The walk finds the chain, given fuel for its length.
ancestors-eq-chain :
    {rows : List Organization} {n : ℕ} {id : String} (fuel : ℕ) (c : Rooted rows n id)
    → n ≤ fuel
    → ancestors fuel rows id ≡ some (chain c)
unfolding ancestors
ancestors-eq-chain zero (top r h e) le = absurd (omega arith)
ancestors-eq-chain zero (under r p h e c) le = absurd (omega arith)
ancestors-eq-chain (suc fuel) (top r h e) le = ground arith
ancestors-eq-chain (suc fuel) (under r p h e c) le =
    ground (arith, ancestors-eq-chain fuel c (omega arith))

-- The chain does not pass the row under the id.
abbrev pub Avoids : String → List Organization → Type 0
Avoids x rows = All (λ r. (r.id == x) ≡ false) rows

count-zero :
    (x : String) (rows : List Organization)
    → (length (keep (λ r. r.id == x) rows) ≡ 0) ↔ Avoids x rows
count-zero x [] = (λ h. tt, λ h. refl)
count-zero x (r ∷ rows) = ground (arith, count-zero x rows)

-- Over a forest the query ends, and a count of zero says that the node is not on the candidate's
-- chain.
pub in_subtree-ends :
    {rows : List Organization} {n : ℕ} (node candidate : String) (c : Rooted rows n candidate)
    → (k : ℕ) × (in_subtree node candidate rows ≡ some k) × ((k ≡ 0) ↔ Avoids node (chain c))
unfolding in_subtree
in_subtree-ends {rows} {n} node candidate c =
    let e = ancestors-eq-chain (suc (length rows)) c (omega (arith, Rooted-le-length n rows c)) in
    (_, rw (e, in_subtree), count-zero node (chain c))
