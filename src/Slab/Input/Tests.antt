-- ===== src/Slab/Input/Tests.antt =====
-- An object of integers, written as the keys that it holds.
use go_web_service.Prelude.{String, refl, Bool, List, [], ◌∷◌, ◌==◌, ℤ, pos, Result, ok}
use go_web_service.Data.Seeds.{lookup}
use go_web_service.Slab.Input.{
  without, Codec, embedded_version, stripped_body, raw_body, guarded_body,
}
use go_web_service.Slab.Input.Versions.{IsGiven, IsStripped, guarded_body-IsStripped}

-- The text of an object is that of its first key.
abbrev first_key : List (String × ℤ) → Result String
first_key [] = ok "{}"
first_key ((k, v) ∷ m) = ok k

abbrev codec : Codec String ℤ
codec = record {
  marshal = λ v. ok v;
  marshal_fields = first_key;
  unmarshal_fields = λ text. ok (("version", pos 4) ∷ ("name", pos 1) ∷ []);
  unmarshal_integer = λ n version. ok n;
}

abbrev changed : String → Bool
changed flag = flag == "body"

guarded_body-IsStripped_example :
    IsGiven codec changed "text" (pos 0) (pos 4) × IsStripped codec changed "text" (pos 0) "name"
unfolding lookup without embedded_version stripped_body raw_body guarded_body
guarded_body-IsStripped_example =
    guarded_body-IsStripped codec changed "text" (pos 0) (ok "flags") {text = "name"} {v = pos 4}
      refl refl
