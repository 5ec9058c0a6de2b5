-- ===== src/Slab/Style/Sql/Lines.antt =====
-- The coloring of a statement ends, and shows the statement.
use Prim.Native.Char.{Char}
use go_web_service.Prelude.{String, Option, some, ◌≡◌}
use go_web_service.Slab.Style.Strip.{Shows}

-- A coloring ends with an output that shows the text.
pub record IsColored (written : Option String) (text : String) : Type 0 where
  pub out : String
  pub ended : written ≡ some out
  pub shown : Shows out text
