-- ===== src/Slab/Input.antt =====
-- tools/slab/input/input.go: the body that a command sends. `changed` is whether the invocation gave a
-- flag, and encoding/json's functions are parameters, an object as the entries of its map.
pub mod Versions
mod Tests
use go_web_service.Prelude.{
  String, Bool, true, false, not, Option, none, some, List, [], ◌∷◌, if◌then◌else◌, ◌==◌, ℤ, Error,
  Result, ok, err, wrap,
}
use go_web_service.Data.Seeds.{lookup}

-- `delete(fields, key)`
unfoldable pub without : {Json : Type 0} → String → List (String × Json) → List (String × Json)
without key [] = []
without key ((k, v) ∷ m) = let rest = without key m in if k == key then rest else (k, v) ∷ rest

-- encoding/json, on the values that a command's flags build and on objects.
pub record Codec (V Json : Type 0) : Type 0 where
  pub marshal : V → Result String
  pub marshal_fields : List (String × Json) → Result String
  pub unmarshal_fields : String → Result (List (String × Json))
  -- json.Unmarshal into an int64 that holds the given one, which a JSON null leaves as it is.
  pub unmarshal_integer : Json → ℤ → Result ℤ

module _ {V Json : Type 0} (codec : Codec V Json) (changed : String → Bool) where
  unfoldable pub marshaled : Result V → Result String
  marshaled (err e) = err e
  marshaled (ok v) = codec.marshal v

  -- Body
  unfoldable pub body : String → Result V → Result String
  unfolding marshaled
  body raw from_flags = if changed "body" then ok raw else marshaled from_flags

  abbrev pub versioned : ℤ → Result String → Result (String × ℤ)
  versioned version (err e) = err e
  versioned version (ok text) = ok (text, version)

  -- The body of the flags, under the version's flag.
  unfoldable pub flagged_body : ℤ → Result V → Result (String × ℤ)
  unfolding marshaled
  flagged_body version from_flags =
      if changed "version"
      then versioned version (marshaled from_flags)
      else err (Error.plain "required flag --version not set")

  -- What the body's version decodes to.
  unfoldable pub embedded_version : String → Result ℤ → Result (String × ℤ)
  embedded_version text (err e) = err (Error.plain "--body: version is not an integer")
  embedded_version text (ok version) = ok (text, version)

  -- The body without its version, under the flag's or its own.
  unfoldable pub stripped_body : ℤ → Json → Result String → Result (String × ℤ)
  unfolding embedded_version
  stripped_body version embedded (err e) = err e
  stripped_body version embedded (ok text) =
      if changed "version"
      then ok (text, version)
      else embedded_version text (codec.unmarshal_integer embedded version)

  -- The --body path, on what its text decodes to.
  unfoldable pub raw_body : String → ℤ → Result (List (String × Json)) → Result (String × ℤ)
  unfolding stripped_body
  raw_body raw version (err e) = err (wrap "--body is not a JSON object" e)
  raw_body raw version (ok fields) = elim (lookup "version" fields) [
    | none ↦
        if changed "version" then ok (raw, version) else err (Error.plain "--version is required")
    | some embedded ↦
        stripped_body version embedded (codec.marshal_fields (without "version" fields))
  ]

  -- GuardedBody
  unfoldable pub guarded_body : String → ℤ → Result V → Result (String × ℤ)
  unfolding flagged_body raw_body
  guarded_body raw version from_flags =
      if changed "body"
      then raw_body raw version (codec.unmarshal_fields raw)
      else flagged_body version from_flags
