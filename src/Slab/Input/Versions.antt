-- ===== src/Slab/Input/Versions.antt =====
-- The version of a guarded request.
use go_web_service.Prelude.{
  String, ◌≡◌, refl, Bool, true, false, Bool-cases, ◌⊎◌, inl, inr, none, some, Option-cases, List,
  [], ◌∷◌, arith, ◌==◌, ℤ, Result, ok, err, result_cases,
}
use go_web_service.Data.Seeds.{lookup}
use go_web_service.Slab.Input.{
  without, Codec, embedded_version, stripped_body, raw_body, guarded_body,
}

lookup-without :
    {Json : Type 0} (key : String) (m : List (String × Json)) → lookup key (without key m) ≡ none
unfolding lookup without
lookup-without key [] = refl
lookup-without key ((k, v) ∷ m) = elim (Bool-cases (k == key)) [
  | inl same ↦ rw same (lookup-without key m)
  | inr other ↦ rw (other, other) (lookup-without key m)
]

module _ {V Json : Type 0} (codec : Codec V Json) (changed : String → Bool) (raw : String)
    (version : ℤ) where
  -- The version is the flag's where it is set, else what the body's decodes to, over the version given.
  abbrev pub IsGiven : ℤ → Type 0
  IsGiven v =
      ((changed "version" ≡ true) × (v ≡ version))
      ⊎ ((changed "version" ≡ false)
          × (fields : List (String × Json)) × (embedded : Json) × (codec.unmarshal_fields raw
              ≡ ok fields)
          × (lookup "version" fields ≡ some embedded)
          × (codec.unmarshal_integer embedded version ≡ ok v))

  -- The body of the --body flag is sent as it is, without a version in it, or without the version that
  -- was in it.
  abbrev pub IsStripped : String → Type 0
  IsStripped text =
      (fields : List (String × Json)) × (codec.unmarshal_fields raw ≡ ok fields)
      × (((text ≡ raw) × (lookup "version" fields ≡ none))
          ⊎ ((codec.marshal_fields (without "version" fields) ≡ ok text)
              × (lookup "version" (without "version" fields) ≡ none)))

  raw_body-ok :
      (x : Result (List (String × Json))) {text : String} {v : ℤ}
      → codec.unmarshal_fields raw ≡ x
      → raw_body codec changed raw version x ≡ ok (text, v)
      → IsGiven v × IsStripped text
  unfolding raw_body stripped_body embedded_version
  raw_body-ok (err e) d h = cc
  raw_body-ok (ok fields) {text} {v} d h = elim (Option-cases (lookup "version" fields)) [
    | inl absent ↦ elim (Bool-cases (changed "version")) [
      | inl flagged ↦ (
        inl (flagged, ground (arith, h, absent, flagged)),
        (fields, d, inl (ground (arith, h, absent, flagged), absent)),
      )
      | inr missing ↦ absurd (ground (arith, h, absent, missing))
    ]
    | inr (embedded, present) ↦
        elim (result_cases (codec.marshal_fields (without "version" fields))) [
          | inr (e, refused) ↦ absurd (ground (arith, h, present, refused))
          | inl (sent, encoded) ↦ elim (Bool-cases (changed "version")) [
            | inl flagged ↦ (
              inl (flagged, ground (arith, h, present, encoded, flagged)),
              (
                fields,
                d,
                inr (ground (arith, h, present, encoded, flagged), lookup-without "version" fields),
              ),
            )
            | inr missing ↦ elim (result_cases (codec.unmarshal_integer embedded version)) [
              | inr (e, refused) ↦ absurd (ground (arith, h, present, encoded, missing, refused))
              | inl (n, integer) ↦ (
                inr (
                  missing,
                  fields,
                  embedded,
                  d,
                  present,
                  ground (arith, h, present, encoded, missing, integer),
                ),
                (
                  fields,
                  d,
                  inr (
                    ground (arith, h, present, encoded, missing, integer),
                    lookup-without "version" fields,
                  ),
                ),
              )
            ]
          ]
        ]
  ]

  -- A guarded request whose body is given by --body carries a version, the flag's where that is set
  -- and else what the version in the body decodes to over the one given, which a null in it leaves,
  -- and no version in its body: the text is sent as it is where it
  -- has none, and without the key where it has one.
  pub guarded_body-IsStripped :
      (from_flags : Result V) {text : String} {v : ℤ}
      → changed "body" ≡ true
      → guarded_body codec changed raw version from_flags ≡ ok (text, v)
      → IsGiven v × IsStripped text
  unfolding guarded_body
  guarded_body-IsStripped from_flags given h =
      raw_body-ok (codec.unmarshal_fields raw) refl (rw (guarded_body, given) at h)
