-- ===== src/Slab/Style/Sql/Cuts.antt =====
-- What the cuts of a line keep: every character, in order, and the shortening of the line.
use Prim.Native.Char.{Char}
use Prim.Native.String.{◌++◌, ◌∷◌}
use text.Mathlib.Text.{starts_with}
use text.Mathlib.TextLemmas.{nil-append, cons-append, append_assoc}
use go_web_service.Prelude.{
  ℕ, suc, zero, ◌+◌, ◌≤◌, String, true, Bool-cases, Option, some, Option-cases, ◌≡◌, refl, subst,
  sym, ap, ◌∙◌, inl, inr, arith,
}
use go_web_service.Slab.Style.Strip.{clean}
use go_web_service.Slab.Style.Sql.{
  length, index, split_at, Marker, close_marker, find_marker, sql_marker_open, sql_marker_close,
}

pub length-append : (s t : String) → length (s ++ t) ≡ length s + length t
unfolding length
length-append String.[] t = rw (nil-append t) (omega arith)
length-append (c ∷ s) t = rw (cons-append c s t) (omega (arith, length-append s t))

pub clean-append : (s t : String) → clean (s ++ t) ≡ true → (clean s ≡ true) × (clean t ≡ true)
unfolding clean
clean-append String.[] t h = (refl, rw (nil-append t) at h)
clean-append (c ∷ s) t h =
    let split = rw (cons-append c s t) at h in
    let rest : clean (s ++ t) ≡ true = ground (arith, split) in
    let (left, right) = clean-append s t rest in (ground (arith, split, left), right)

parts :
    {A B : Type 0} {a c : A} {b d : B}
    → ◌≡◌ {A = Option (A × B)} (some (a, b)) (some (c, d))
    → (a ≡ c) × (b ≡ d)
parts h = (ground (arith, h), ground (arith, h))

-- The text from an occurrence is not empty, and the two texts are the whole.
pub index-append :
    (pattern s : String) {before found : String}
    → index pattern s ≡ some (before, found)
    → (before ++ found ≡ s) × (1 ≤ length found)
unfolding index length
index-append pattern String.[] h = cc
index-append pattern (c ∷ s) {before} {found} h = elim (Bool-cases (starts_with (c ∷ s) pattern)) [
  | inl here ↦
      let (e, f) = parts (rw (index, here) at h) in
      (
        ap (λ x. x ++ found) (sym e) ∙ nil-append found ∙ sym f,
        subst (λ (x : String). 1 ≤ length x) f (omega arith),
      )
  | inr later ↦ elim (Option-cases (index pattern s)) [
    | inl absent ↦ absurd (ground (arith, rw (index, later, absent) at h))
    | inr ((b, f), split) ↦
        let (e, g) = parts (rw (index, later, split) at h) in
        let (same, size) = index-append pattern s split in
        (
          ap (λ x. x ++ found) (sym e)
              ∙ ap (λ x. (c ∷ b) ++ x) (sym g)
              ∙ cons-append c b f
              ∙ ap (λ x. c ∷ x) same,
          subst (λ (x : String). 1 ≤ length x) g size,
        )
  ]
]

pub split_at-append : (n : ℕ) (s : String) → ((split_at n s).0 ++ (split_at n s).1 ≡ s)
unfolding split_at
split_at-append zero s = nil-append s
split_at-append (suc n) String.[] = nil-append ""
split_at-append (suc n) (c ∷ s) =
    cons-append c (split_at n s).0 (split_at n s).1 ∙ ap (λ x. c ∷ x) (split_at-append n s)

pub length-split_at : (n : ℕ) (c : Char) (s : String) → 1 ≤ length (split_at (suc n) (c ∷ s)).0
unfolding split_at length
length-split_at n c s = omega arith

-- A line that a marker is found in: the three texts are the line, and the marker is not empty.
pub record IsCut (line : String) (m : Marker) : Type 0 where
  pub whole : m.before ++ (m.marker ++ m.after) ≡ line
  pub shorter : suc (length m.after) ≤ length line

closed-split :
    (before opened inner found : String)
    → inner ++ found ≡ opened
    → 1 ≤ length found
    → let (close, after) = split_at 2 found in
      IsCut (before ++ opened) (record { before = before; marker = inner ++ close; after = after })
unfolding length
closed-split before opened inner String.[] h n = absurd (omega (arith, n))
closed-split before opened inner (c ∷ s) h n =
    let pair = split_at 2 (c ∷ s) in
    let whole : (inner ++ pair.0) ++ pair.1 ≡ opened =
      append_assoc inner pair.0 pair.1 ∙ ap (λ x. inner ++ x) (split_at-append 2 (c ∷ s)) ∙ h in
    let l1 = length-append before opened in
    let l2 = ap (λ x. length x) whole in
    let l3 = length-append (inner ++ pair.0) pair.1 in
    let l4 = length-append inner pair.0 in
    let l5 = length-split_at 1 c s in
    record { whole = ap (λ x. before ++ x) whole; shorter = omega (arith, l1, l2, l3, l4, l5) }

close_marker-IsCut :
    (before opened : String) {m : Marker}
    → close_marker before opened ≡ some m
    → IsCut (before ++ opened) m
unfolding close_marker
close_marker-IsCut before opened h = elim (Option-cases (index sql_marker_close opened)) [
  | inl absent ↦ absurd (ground (arith, rw (close_marker, absent) at h))
  | inr ((inner, found), closed) ↦
      let (same, size) = index-append sql_marker_close opened closed in
      subst (λ (x : Marker). IsCut (before ++ opened) x)
        (ground (arith, rw (close_marker, closed) at h))
        (closed-split before opened inner found same size)
]

pub find_marker-IsCut : (line : String) {m : Marker} → find_marker line ≡ some m → IsCut line m
unfolding find_marker
find_marker-IsCut line {m} h = elim (Option-cases (index sql_marker_open line)) [
  | inl absent ↦ absurd (ground (arith, rw (find_marker, absent) at h))
  | inr ((before, opened), found) ↦
      let (same, size) = index-append sql_marker_open line found in
      subst (λ (x : String). IsCut x m) same
        (close_marker-IsCut before opened (rw (find_marker, found) at h))
]
