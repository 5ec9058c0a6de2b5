-- ===== src/Organization/Code/Laws.antt =====
-- The code's pattern against the language that it stands for: nonempty words joined by hyphens.
use Prim.Native.Char.{Char, code}
use go_web_service.Prelude.{
  String, ◌≡◌, Bool, true, false, arith, ◌↔◌, Bool-cases, inl, inr, refl, if◌then◌else◌, ◌=ℕ=◌,
  ◌&&◌,
}
use go_web_service.Organization.Code.{is_word_char, match_from, matches_code}

-- The words of the language, read off the regular expression: `Words true` is what may follow a
-- character of a word, `Words false` what may start a word.
pub data Words : Bool → String → Type 0 where
  end : Words true String.[]
  letter :
      {b : Bool} (c : Char) {s : String}
      → is_word_char c ≡ true
      → Words true s
      → Words b (String.◌∷◌ c s)
  hyphen : (c : Char) {s : String} → code c ≡ b'-' → Words false s → Words true (String.◌∷◌ c s)

hyphen_is_no_letter : (c : Char) → code c ≡ b'-' → is_word_char c ≡ false
unfolding is_word_char
hyphen_is_no_letter c h = ground arith

-- Where no letter stands, the automaton goes on at a hyphen alone, and after a word.
after_word :
    (b : Bool) (c : Char) (s : String)
    → (match_from false s ≡ true → Words false s)
    → (if b && code c =ℕ= b'-' then match_from false s else false) ≡ true
    → Words b (String.◌∷◌ c s)
after_word false c s next h = cc
after_word true c s next h = hyphen c (ground arith) (next (ground arith))

match_from-Words : (b : Bool) (s : String) → match_from b s ≡ true → Words b s
unfolding match_from
match_from-Words true String.[] h = end
match_from-Words false String.[] h = cc
match_from-Words b (String.◌∷◌ c s) h = elim (Bool-cases (is_word_char c)) [
  | inl word ↦ letter c word (match_from-Words true s (rw word at h))
  | inr other ↦ after_word b c s (match_from-Words false s) (rw other at h)
]

Words-match_from : {b : Bool} {s : String} → Words b s → match_from b s ≡ true
unfolding match_from
Words-match_from end = refl
Words-match_from (letter c w h) = rw w (Words-match_from h)
Words-match_from (hyphen c e h) = rw (hyphen_is_no_letter c e) (rw e (Words-match_from h))

-- A code is accepted exactly when it is one or more nonempty words of lowercase letters and digits,
-- joined by single hyphens.
pub matches_code_iff : (s : String) → (matches_code s ≡ true) ↔ Words false s
unfolding matches_code
matches_code_iff s = (match_from-Words false s, Words-match_from)
