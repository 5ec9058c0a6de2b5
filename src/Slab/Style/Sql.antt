-- ===== src/Slab/Style/Sql.antt =====
-- tools/slab/style/sql.go: the coloring of a statement. A position that strings.Index finds is kept as
-- the text before it and the text from it. The loop over a line runs on fuel.
pub mod Cuts
pub mod Words
pub mod Lines
use Prim.Native.Char.{Char, code}
use Prim.Native.String
use Prim.Native.String.{◌++◌, ◌∷◌}
use text.Mathlib.Text.{starts_with}
use go_web_service.Prelude.{
  ℕ, suc, zero, String, Bool, true, false, ◌&&◌, ◌||◌, Option, none, some, any, ltb, leb,
  if◌then◌else◌, ◌==◌, ◌=ℕ=◌,
}
use go_web_service.Slab.Style.{bold, dim, value, sql_keywords}

abbrev pub sql_comment : String
sql_comment = "--"

abbrev pub sql_marker_open : String
sql_marker_open = "{{"

abbrev pub sql_marker_close : String
sql_marker_close = "}}"

unfoldable pub length : String → ℕ
length String.[] = 0
length (c ∷ s) = suc (length s)

-- strings.Index: the text before the first occurrence, and the text from it.
unfoldable pub index : String → String → Option (String × String)
index pattern String.[] = none
index pattern (c ∷ s) =
    let rest = index pattern s in
    if starts_with (c ∷ s) pattern
    then some ("", c ∷ s)
    else elim rest [ none ↦ none | some (before, found) ↦ some (c ∷ before, found) ]

-- `text[:n]` and `text[n:]`
unfoldable pub split_at : ℕ → String → String × String
split_at zero s = ("", s)
split_at (suc n) String.[] = ("", "")
split_at (suc n) (c ∷ s) = let (before, rest) = split_at n s in (c ∷ before, rest)

-- A marker of the line: the code before it, the marker with its braces, and the line after it.
pub record Marker : Type 0 where
  pub before : String
  pub marker : String
  pub after : String

-- The marker in the text from an opening.
unfoldable pub close_marker : String → String → Option Marker
unfolding index split_at
close_marker before opened = elim (index sql_marker_close opened) [
  | none ↦ none
  | some (inner, found) ↦
      let (close, after) = split_at 2 found in
      some (record { before = before; marker = inner ++ close; after = after })
]

-- The first marker of a line, where one opens and closes.
unfoldable pub find_marker : String → Option Marker
unfolding index close_marker
find_marker line = elim (index sql_marker_open line) [
  | none ↦ none
  | some (before, opened) ↦ close_marker before opened
]

abbrev pub in_range : ℕ → ℕ → ℕ → Bool
in_range low high n = leb low n && leb n high

-- isWordByte
unfoldable pub is_word_byte : Char → Bool
is_word_byte c =
    code c =ℕ= b'_'
    || in_range b'0' b'9' (code c)
    || in_range b'a' b'z' (code c)
    || in_range b'A' b'Z' (code c)

-- strings.TrimLeft(line, " \t")
unfoldable pub trim_left : String → String
trim_left String.[] = String.[]
trim_left (c ∷ s) =
    let rest = trim_left s in if code c =ℕ= b' ' || code c =ℕ= 9 then rest else c ∷ s

-- `comment >= 0 && comment < open`
unfoldable pub comes_first : Option (String × String) → Marker → Bool
unfolding length
comes_first none m = false
comes_first (some (before, comment)) m = ltb (length before) (length m.before)

module _ (on : Bool) where
  -- flush, of the word that ends; no word is empty
  unfoldable pub flush : String → String
  flush word = if any (λ k. k == word) sql_keywords then bold on word else word

  -- sqlCode, after the characters `word` of a word that has not ended
  unfoldable pub code_after : String → String → String
  unfolding flush is_word_byte
  code_after word String.[] = flush word
  code_after word (c ∷ s) =
      let going = code_after (word ++ c ∷ "") s in
      let ended = flush word ++ c ∷ code_after "" s in if is_word_byte c then going else ended

  unfoldable pub sql_code : String → String
  unfolding code_after
  sql_code code = code_after "" code

  -- What is left of a line without a marker before its comment.
  unfoldable pub last_code : String → Option (String × String) → String
  unfolding sql_code
  last_code line none = sql_code line
  last_code line (some (before, comment)) = sql_code before ++ dim on comment

  -- The loop of sqlLine.
  unfoldable pub sql_rest : ℕ → String → Option String
  unfolding index find_marker last_code comes_first sql_code
  sql_rest zero line = if line == "" then some "" else none
  sql_rest (suc n) line = if line == "" then some "" else elim (find_marker line) [
    | none ↦ some (last_code line (index sql_comment line))
    | some m ↦ elim (comes_first (index sql_comment line) m) [
      | true ↦ some (last_code line (index sql_comment line))
      | false ↦ elim (sql_rest n m.after) [
        | none ↦ none
        | some rest ↦ some ((sql_code m.before ++ value on m.marker) ++ rest)
      ]
    ]
  ]

  -- sqlLine; a line's length is fuel enough
  unfoldable pub sql_line : String → Option String
  unfolding sql_rest length
  sql_line line =
      if starts_with (trim_left line) sql_comment
      then some (dim on line)
      else sql_rest (length line) line

  -- The lines of a text, `line` what is read of the first, each colored.
  unfoldable pub sql_lines : String → String → Option String
  unfolding sql_line
  sql_lines line String.[] = sql_line line
  sql_lines line (c ∷ s) =
      let same = sql_lines (line ++ c ∷ "") s in
      let rest = sql_lines "" s in
      if code c =ℕ= b'\n'
      then elim (sql_line line) [
        | none ↦ none
        | some out ↦ elim rest [ none ↦ none | some others ↦ some ((out ++ "\n") ++ others) ]
      ]
      else same

  -- SQL
  unfoldable pub sql : String → Option String
  unfolding sql_lines
  sql text = if on then sql_lines "" text else some text
