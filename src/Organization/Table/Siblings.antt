-- ===== src/Organization/Table/Siblings.antt =====
-- The unique sibling codes: a row that meets no sibling of its key can be put in.
use go_web_service.Prelude.{
  String, ◌≡◌, refl, sym, ◌∙◌, true, false, none, some, List, arith, ◌==◌, eq_iff, any, subst, ◌⊎◌,
  Option, inl, inr,
}
use go_web_service.Organization.Entities.{Organization}
use go_web_service.Organization.Schema.{find_row, same_key, same_parent}
use go_web_service.Organization.Schema.Rows.{any-find_row}
use go_web_service.Organization.Table.{HasSiblings}

same_parent_comm : (p q : Option String) → same_parent p q ≡ same_parent q p
same_parent_comm none none = refl
same_parent_comm none (some b) = refl
same_parent_comm (some a) none = refl
same_parent_comm (some a) (some b) = ground (arith, eq_iff a b, eq_iff b a)

same_key_comm : (r s : Organization) → same_key r s ≡ same_key s r
same_key_comm r s =
    ground
      (arith, same_parent_comm r.parent_id s.parent_id, eq_iff r.code s.code, eq_iff s.code r.code)

-- What is found at an id once a row stands there: that row, or one of the others.
abbrev pub AddsOnly : String → Organization → List Organization → List Organization → Type 0
AddsOnly x r others rows =
    (j : String) (a : Organization)
    → find_row j rows ≡ some a
    → ((x ≡ j) × (a ≡ r)) ⊎ (((x == j) ≡ false) × (find_row j others ≡ some a))

clash :
    (r b : Organization) (j : String) (others : List Organization)
    → any (same_key r) others ≡ false
    → find_row j others ≡ some b
    → same_key r b ≡ true
    → ⊥
clash r b j others free found same =
    cc (sym same ∙ any-find_row (same_key r) j others {r = b} free found)

-- A row that has no sibling of its key among the others may stand beside them.
pub HasSiblings-add :
    (x : String) (r : Organization) (others rows : List Organization)
    → AddsOnly x r others rows
    → any (same_key r) others ≡ false
    → HasSiblings others
    → HasSiblings rows
HasSiblings-add x r others rows adds free h i j a b ha hb same = elim (adds i a ha) [
  | inl (at_i, is_r) ↦ elim (adds j b hb) [
    | inl (at_j, _) ↦ sym at_i ∙ at_j
    | inr (_, found) ↦
        absurd (clash r b j others free found (subst (λ y. same_key y b ≡ true) is_r same))
  ]
  | inr (_, found) ↦ elim (adds j b hb) [
    | inl (_, is_r) ↦ absurd (
        clash r a i others free found
          (same_key_comm r a ∙ subst (λ y. same_key a y ≡ true) is_r same))
    | inr (_, found') ↦ h i j a b found found' same
  ]
]
