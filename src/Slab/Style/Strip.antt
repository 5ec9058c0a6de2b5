-- ===== src/Slab/Style/Strip.antt =====
-- The text that a terminal shows: what is left without the ANSI sequences.
use Prim.Native.Char.{Char, code}
use Prim.Native.String.{◌++◌, ◌∷◌}
use text.Mathlib.TextLemmas.{nil-append, cons-append, append_assoc, append-nil}
use go_web_service.Prelude.{
  String, Bool, true, false, not, ◌&&◌, ◌||◌, if◌then◌else◌, ◌==◌, ◌=ℕ=◌, ◌≡◌, refl, sym, ap, ◌∙◌,
  Bool-cases, eq_iff, inl, inr, arith,
}
use go_web_service.Slab.Style.{ansi_reset, wrap}

abbrev is_escape : Char → Bool
is_escape c = code c =ℕ= 27

-- The text without its sequences, each from an escape to the next `m`; `inside` is whether it starts
-- inside one.
unfoldable pub strip : Bool → String → String
strip inside String.[] = String.[]
strip false (c ∷ s) =
    let out = strip false s in let rest = strip true s in if is_escape c then rest else c ∷ out
strip true (c ∷ s) =
    let out = strip false s in let rest = strip true s in if code c =ℕ= b'm' then out else rest

-- No escape is in the text.
unfoldable pub clean : String → Bool
clean String.[] = true
clean (c ∷ s) = not (is_escape c) && clean s

-- What is written shows the text, whatever follows.
abbrev pub Shows : String → String → Type 0
Shows out text = (s : String) → strip false (out ++ s) ≡ text ++ strip false s

pub Shows-append : (a t b u : String) → Shows a t → Shows b u → Shows (a ++ b) (t ++ u)
Shows-append a t b u h k s =
    ap (strip false) (append_assoc a b s)
    ∙ h (b ++ s)
    ∙ ap (λ x. t ++ x) (k s)
    ∙ sym (append_assoc t u (strip false s))

pub Shows-clean : (t : String) → clean t ≡ true → Shows t t
unfolding strip clean
Shows-clean String.[] h s = rw (nil-append s, nil-append (strip false s))
Shows-clean (c ∷ t) h s = elim (Bool-cases (is_escape c)) [
  | inl found ↦ absurd (ground (arith, rw (clean, found) at h))
  | inr other ↦
      rw (cons-append c t s, cons-append c t (strip false s), strip, other)
        (ap (λ x. c ∷ x) (Shows-clean t (rw (clean, other) at h) s))
]

-- The rest of a sequence past its escape, to its `m`.
unfoldable pub closes : String → Bool
closes String.[] = false
closes (c ∷ t) = let rest = closes t in if code c =ℕ= b'm' then t == "" else rest

unfoldable pub is_sequence : String → Bool
unfolding closes
is_sequence String.[] = false
is_sequence (c ∷ t) = is_escape c && closes t

strip-closes : (t s : String) → closes t ≡ true → strip true (t ++ s) ≡ strip false s
unfolding strip closes
strip-closes String.[] s h = cc
strip-closes (c ∷ t) s h = elim (Bool-cases (code c =ℕ= b'm')) [
  | inl last ↦
      let empty : t ≡ "" = (eq_iff t "").0 (rw (closes, last) at h) in
      rw (cons-append c t s, strip, last) (ap (strip false) (ap (λ x. x ++ s) empty ∙ nil-append s))
  | inr more ↦ rw (cons-append c t s, strip, more) (strip-closes t s (rw (closes, more) at h))
]

pub Shows-is_sequence : (t : String) → is_sequence t ≡ true → Shows t ""
unfolding strip is_sequence
Shows-is_sequence String.[] h s = cc
Shows-is_sequence (c ∷ t) h s = elim (Bool-cases (is_escape c)) [
  | inl found ↦
      rw (cons-append c t s, strip, found, nil-append (strip false s))
        (strip-closes t s (rw (is_sequence, found) at h))
  | inr other ↦ absurd (ground (arith, rw (is_sequence, other) at h))
]

-- A style shows the text that it wraps.
pub Shows-wrap :
    (on : Bool) (color text : String)
    → is_sequence color ≡ true
    → clean text ≡ true
    → Shows (wrap on color text) text
unfolding wrap is_sequence closes
Shows-wrap on color text q h = elim (Bool-cases (not on || text == "")) [
  | inl plain ↦ rw (wrap, plain) (Shows-clean text h)
  | inr styled ↦
      rw (wrap, styled)
        (λ s.
          Shows-append color "" (text ++ ansi_reset) text (Shows-is_sequence color q)
            (λ z.
              Shows-append text text ansi_reset "" (Shows-clean text h)
                (Shows-is_sequence ansi_reset refl) z
              ∙ ap (λ x. x ++ strip false z) (append-nil text))
            s
          ∙ ap (λ x. x ++ strip false s) (nil-append text))
]

pub Shows-cons :
    (c : Char) (out text : String)
    → clean (c ∷ "") ≡ true
    → Shows out text
    → Shows (c ∷ out) (c ∷ text)
unfolding strip clean
Shows-cons c out text h k s = elim (Bool-cases (is_escape c)) [
  | inl found ↦ absurd (ground (arith, rw (clean, found) at h))
  | inr other ↦
      rw (cons-append c out s, cons-append c text (strip false s), strip, other)
        (ap (λ x. c ∷ x) (k s))
]
