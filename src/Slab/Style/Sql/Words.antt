-- ===== src/Slab/Style/Sql/Words.antt =====
-- The coloring of code shows the code.
use Prim.Native.Char.{Char}
use Prim.Native.String.{◌++◌, ◌∷◌}
use text.Mathlib.TextLemmas.{nil-append, cons-append, append_assoc, append-nil}
use go_web_service.Prelude.{
  String, Bool, true, Bool-cases, Option-cases, any, ◌==◌, ◌≡◌, refl, subst, sym, ap, ◌∙◌, inl, inr,
  arith,
}
use go_web_service.Slab.Style.{bold, dim, value, ansi_bold, ansi_dim, ansi_green, sql_keywords}
use go_web_service.Slab.Style.Strip.{
  clean, closes, is_sequence, Shows, Shows-clean, Shows-append, Shows-cons, Shows-wrap,
}
use go_web_service.Slab.Style.Sql.{flush, code_after, sql_code, is_word_byte, index, last_code}
use go_web_service.Slab.Style.Sql.Cuts.{clean-append, index-append}

pub clean-join : (s t : String) → clean s ≡ true → clean t ≡ true → clean (s ++ t) ≡ true
unfolding clean
clean-join String.[] t h k = rw (nil-append t) k
clean-join (c ∷ s) t h k =
    let rest : clean s ≡ true = ground (arith, h) in
    let joined = clean-join s t rest k in rw (cons-append c s t) (ground (arith, h, joined))

pub clean-cons :
    (c : Char) (s : String) → clean (c ∷ s) ≡ true → (clean (c ∷ "") ≡ true) × (clean s ≡ true)
unfolding clean
clean-cons c s h = (ground (arith, h), ground (arith, h))

pub moved : (word : String) (c : Char) (s : String) → (word ++ c ∷ "") ++ s ≡ word ++ c ∷ s
moved word c s =
    append_assoc word (c ∷ "") s
    ∙ ap (λ x. word ++ x) (cons-append c "" s ∙ ap (λ x. c ∷ x) (nil-append s))

module _ (on : Bool) where
  pub bold-Shows : (text : String) → clean text ≡ true → Shows (bold on text) text
  unfolding bold is_sequence closes
  bold-Shows text h = Shows-wrap on ansi_bold text refl h

  pub dim-Shows : (text : String) → clean text ≡ true → Shows (dim on text) text
  unfolding dim is_sequence closes
  dim-Shows text h = Shows-wrap on ansi_dim text refl h

  pub value-Shows : (text : String) → clean text ≡ true → Shows (value on text) text
  unfolding value is_sequence closes
  value-Shows text h = Shows-wrap on ansi_green text refl h

  flush-Shows : (word : String) → clean word ≡ true → Shows (flush on word) word
  unfolding flush
  flush-Shows word h = elim (Bool-cases (any (λ k. k == word) sql_keywords)) [
    | inl keyword ↦ rw (flush, keyword) (bold-Shows word h)
    | inr other ↦ rw (flush, other) (Shows-clean word h)
  ]

  code_after-Shows :
      (word s : String)
      → clean word ≡ true
      → clean s ≡ true
      → Shows (code_after on word s) (word ++ s)
  unfolding code_after clean
  code_after-Shows word String.[] h k =
      subst (λ (t : String). Shows (flush on word) t) (sym (append-nil word)) (flush-Shows word h)
  code_after-Shows word (c ∷ s) h k =
      let (one, rest) = clean-cons c s k in
      elim (Bool-cases (is_word_byte c)) [
        | inl going ↦
            rw (code_after, going)
              (subst (λ (t : String). Shows (code_after on (word ++ c ∷ "") s) t) (moved word c s)
                (code_after-Shows (word ++ c ∷ "") s (clean-join word (c ∷ "") h one) rest))
        | inr ended ↦
            rw (code_after, ended)
              (Shows-append (flush on word) word (c ∷ code_after on "" s) (c ∷ s)
                (flush-Shows word h)
                (Shows-cons c (code_after on "" s) s one (
                  subst (λ (t : String). Shows (code_after on "" s) t) (nil-append s)
                    (code_after-Shows "" s refl rest))))
      ]

  pub sql_code-Shows : (s : String) → clean s ≡ true → Shows (sql_code on s) s
  unfolding sql_code clean
  sql_code-Shows s h =
      subst (λ (t : String). Shows (code_after on "" s) t) (nil-append s)
        (code_after-Shows "" s refl h)

  pub last_code-Shows :
      (pattern line : String)
      → clean line ≡ true
      → Shows (last_code on line (index pattern line)) line
  unfolding last_code
  last_code-Shows pattern line h = elim (Option-cases (index pattern line)) [
    | inl absent ↦ rw (last_code, absent) (sql_code-Shows line h)
    | inr ((before, comment), found) ↦
        let (same, size) = index-append pattern line found in
        let (left, right) = clean-append before comment (rw same h) in
        rw (last_code, found)
          (subst (λ (t : String). Shows (sql_code on before ++ dim on comment) t) same
            (Shows-append (sql_code on before) before (dim on comment) comment
              (sql_code-Shows before left) (dim-Shows comment right)))
  ]
