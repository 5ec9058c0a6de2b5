-- ===== src/Data/Directives/Tests.antt =====
-- A query with a bare filter of several values, and one that tests for null.
use go_web_service.Prelude.{◌≡◌, refl, true, false, ◌&&◌, ◌==◌, [], ◌∷◌, pos}
use go_web_service.Data.Directives.{RequestQuery, Operators, directives}
use go_web_service.Data.Directives.Values.{Row, all, holds, directives-requested}

abbrev ops : Operators
ops = record { op_eq = "eq"; op_in = "in"; op_is_null = "isnull"; op_is_not_null = "isnotnull" }

abbrev request : RequestQuery
request = record {
  sort = [];
  filters =
      record { field = "name"; op = ""; values = "a" ∷ "b" ∷ [] }
      ∷ record { field = "parent_id"; op = "isnull"; values = "" ∷ [] }
      ∷ [];
  cursor = "";
  page = pos 1;
  size = pos 20;
}

-- A row whose name is "b" and whose parent is null.
abbrev row : Row
row = record {
  passes = λ field op v. field == "name" && op == "eq" && v == "b";
  passes_bare = λ field op. field == "parent_id" && op == "isnull";
  passes_several = λ field op vs. false;
}

directives-requested_example : all (holds ops row) (directives ops request).filters ≡ true
directives-requested_example = directives-requested ops row request (refl, refl)
