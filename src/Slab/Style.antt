-- ===== src/Slab/Style.antt =====
-- tools/slab/style/style.go: the ANSI styles. A text is a string of characters: the patterns that the
-- styles look for are ASCII, so a position in bytes and one in characters cut at the same place.
pub mod Sql
pub mod Strip
mod Tests
use Prim.Native.String.{◌++◌}
use go_web_service.Prelude.{
  String, List, [], ◌∷◌, Bool, true, false, not, ◌||◌, if◌then◌else◌, ◌==◌,
}

abbrev pub ansi_reset : String
ansi_reset = "\u{1b}[0m"

abbrev pub ansi_bold : String
ansi_bold = "\u{1b}[1m"

abbrev pub ansi_dim : String
ansi_dim = "\u{1b}[2m"

abbrev pub ansi_green : String
ansi_green = "\u{1b}[32m"

-- wrap; `on` is the Style's
unfoldable pub wrap : Bool → String → String → String
wrap on code text = if not on || text == "" then text else code ++ text ++ ansi_reset

unfoldable pub bold : Bool → String → String
unfolding wrap
bold on text = wrap on ansi_bold text

unfoldable pub dim : Bool → String → String
unfolding wrap
dim on text = wrap on ansi_dim text

unfoldable pub value : Bool → String → String
unfolding wrap
value on text = wrap on ansi_green text

-- sqlKeywords, of sql.go
abbrev pub sql_keywords : List String
sql_keywords =
    "SELECT" ∷ "FROM" ∷ "WHERE" ∷ "INSERT" ∷ "UPDATE" ∷ "DELETE" ∷ "SET" ∷ "JOIN" ∷ "ON" ∷ "AND"
    ∷ "OR" ∷ "ORDER" ∷ "BY" ∷ "GROUP" ∷ "LIMIT" ∷ "OFFSET" ∷ "VALUES" ∷ "INTO" ∷ "RETURNING" ∷ []
