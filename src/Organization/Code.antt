-- ===== src/Organization/Code.antt =====
-- The pattern of an organization's code, `^[a-z0-9]+(-[a-z0-9]+)*$`: codePattern of
-- domain/organization/entities.go and the check cc_organization_code of
-- data/migrations/0001_organization.up.sql.
pub mod Laws
use Prim.Native.Char.{Char, code}
use Prim.Native.String.{[], ◌∷◌}
use go_web_service.Prelude.{ℕ, String, Bool, true, false, ◌&&◌, ◌||◌, leb, ◌=ℕ=◌, if◌then◌else◌}

-- [a-z0-9]
unfoldable pub is_word_char : Char → Bool
is_word_char c = leb b'a' (code c) && leb (code c) b'z' || leb b'0' (code c) && leb (code c) b'9'

-- The pattern's automaton: `started` is whether the word at hand has a character.
unfoldable pub match_from : Bool → String → Bool
unfolding is_word_char
match_from started [] = started
match_from started (c ∷ rest) =
    let word = match_from true rest in
    let next = match_from false rest in
    if is_word_char c then word else if started && code c =ℕ= b'-' then next else false

unfoldable pub matches_code : String → Bool
unfolding match_from
matches_code text = match_from false text
