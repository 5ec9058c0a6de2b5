-- ===== src/Organization/Reads/Lookup.antt =====
-- The leading slash of a lookup's path.
use Prim.Native.String.{◌++◌, len}
use text.Mathlib.Text.{starts_with}
use text.Mathlib.TextPositions.{slice-append_right, starts_with-append, len-append}
use go_web_service.Prelude.{
  String, ◌≡◌, sym, ap, ◌∙◌, false, String-cases, inl, inr, ◌==◌, arith, ok,
}
use go_web_service.Data.Status.{trim_prefix}
use go_web_service.Organization.Reads.{View, lookup_path, handle_lookup}

-- A prefix that is there is cut.
trim_prefix-append : (prefix text : String) → trim_prefix (prefix ++ text) prefix ≡ text
unfolding trim_prefix
trim_prefix-append prefix text =
    rw (starts_with-append prefix text, len-append prefix text, slice-append_right prefix text)

-- One that is not leaves the text.
trim_prefix-absent :
    (prefix text : String) → starts_with text prefix ≡ false → trim_prefix text prefix ≡ text
unfolding trim_prefix
trim_prefix-absent prefix text h = rw (h)

-- A text with a slash in front is not empty.
slashed-given : (path : String) → (("/" ++ path) == "") ≡ false
slashed-given path = elim (String-cases ("/" ++ path) "") [
  | inl same ↦ absurd (omega (arith, sym (len-append "/" path) ∙ ap len same))
  | inr (_, test) ↦ test
]

-- What lookup reads of a path that is not empty.
lookup_path-given :
    (path text : String)
    → (path == "") ≡ false
    → trim_prefix path "/" ≡ text
    → lookup_path path ≡ ok ("/" ++ text)
unfolding lookup_path
lookup_path-given path text given trimmed = rw (given, trimmed)

-- A lookup by a path that is not empty and has no leading slash is the lookup by that path with one.
pub handle_lookup-slash :
    {S : Type 0} (v : View S) (path : String) (s : S)
    → (path == "") ≡ false
    → starts_with path "/" ≡ false
    → handle_lookup v path s ≡ handle_lookup v ("/" ++ path) s
unfolding handle_lookup
handle_lookup-slash v path s given slashless =
    let bare = lookup_path-given path path given (trim_prefix-absent "/" path slashless) in
    let slashed =
      lookup_path-given ("/" ++ path) path (slashed-given path) (trim_prefix-append "/" path) in
    cc
