-- ===== src/Slab/Repo.antt =====
-- tools/slab/repo/root.go: the walk up to the repository's root. A directory is its segments, the last
-- one first. The file system is a parameter: a directory's go.mod as its lines with the error that ends
-- the scan, if one does, or none where there is no such file. Space is ASCII's.
pub mod Nearest
mod Tests
use Prim.Native.Char.{Char, code}
use Prim.Native.String
use text.Mathlib.Text.{starts_with}
use go_web_service.Prelude.{
  String, Bool, true, false, ◌||◌, ◌&&◌, Option, none, some, List, [], ◌∷◌, if◌then◌else◌, ◌==◌,
  ◌=ℕ=◌, ltb, ◌+◌, Error, Result, ok, err, wrap,
}

-- Module
abbrev pub module_path : String
module_path = "github.com/standards-lab/go-web-service"

-- A go.mod as bufio.Scanner reads it.
pub record Scan : Type 0 where
  pub lines : List String
  pub failure : Option Error

abbrev pub is_space : Char → Bool
is_space c = code c =ℕ= b' ' || (ltb 8 (code c) && ltb (code c) 14)

-- The text without the characters at its front that pass the test.
unfoldable pub trim_front : (Char → Bool) → String → String
trim_front p String.[] = String.[]
trim_front p (String.◌∷◌ c s) = let rest = trim_front p s in if p c then rest else String.◌∷◌ c s

-- The text without those at its back.
unfoldable pub trim_back : (Char → Bool) → String → String
trim_back p String.[] = String.[]
trim_back p (String.◌∷◌ c s) =
    let rest = trim_back p s in
    if rest == "" then (if p c then "" else String.◌∷◌ c "") else String.◌∷◌ c rest

-- strings.TrimSpace, and strings.Trim of quotes
unfoldable pub trim : (Char → Bool) → String → String
unfolding trim_front trim_back
trim p s = trim_back p (trim_front p s)

abbrev pub is_quote : Char → Bool
is_quote c = code c =ℕ= b'"'

-- Whether a trimmed line is the module directive.
unfoldable pub is_directive : String → Bool
is_directive line = starts_with line "module " || starts_with line "module\t"

-- Whether a directive's line names Module.
unfoldable pub names_module : String → Bool
unfolding trim
names_module line =
    trim is_quote (trim is_space (String.slice line 6 (String.len line))) == module_path

unfoldable pub declares_by : Option Error → List String → Result Bool
unfolding trim is_directive names_module
declares_by none [] = ok false
declares_by (some e) [] = err e
declares_by failure (text ∷ lines) =
    let rest = declares_by failure lines in
    if is_directive (trim is_space text) then ok (names_module (trim is_space text)) else rest

module _ (go_mod : List String → Result (Option Scan)) where
  -- declares, of the go.mod in the directory
  unfoldable pub declares : List String → Result Bool
  unfolding declares_by
  declares dir = elim (go_mod dir) [
    | err e ↦ err e
    | ok found ↦ elim found [ none ↦ ok false | some scan ↦ declares_by scan.failure scan.lines ]
  ]

  -- ErrNotFound is `not_found`, under the directory that the walk started from.
  module _ (not_found : Error) where
    unfoldable pub find_from : List String → Result (List String)
    unfolding declares
    find_from [] = elim (declares []) [
      | err e ↦ err (wrap "repo" e)
      | ok true ↦ ok []
      | ok false ↦ err (wrap "above" not_found)
    ]
    find_from (segment ∷ parent) =
        let above = find_from parent in
        elim (declares (segment ∷ parent)) [
          | err e ↦ err (wrap "repo" e)
          | ok true ↦ ok (segment ∷ parent)
          | ok false ↦ above
        ]

    -- Find; `abs` is filepath.Abs
    unfoldable pub find : (String → Result (List String)) → String → Result (List String)
    unfolding find_from
    find abs dir = elim (abs dir) [ err e ↦ err (wrap "repo" e) | ok start ↦ find_from start ]
