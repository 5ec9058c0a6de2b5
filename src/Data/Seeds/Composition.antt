-- ===== src/Data/Seeds/Composition.antt =====
-- Which contributions NewSeeder composes, and what it makes of them.
use go_web_service.Prelude.{
  String, ◌≡◌, refl, sym, ap, ◌∙◌, ◌↔◌, Bool, true, false, not, ◌&&◌, none, some, Option-cases,
  Bool-cases, List, [], ◌∷◌, ◌⊎◌, ◌++◌, any, ◌==◌, arith, inl, inr, Error, ok, err,
}
use mathlib.Core.List.{append-nil, append_assoc}
use go_web_service.Data.Seeds.{Contribution, Seed, FileSeed, Seeder, sorted_in, compose, new_seeder}

module _ {Json D : Type 0} where
  -- Exactly one of the two methods.
  abbrev pub one_kind : Contribution Json D → Bool
  one_kind c = elim c.apply [
    | none ↦ elim c.write [ none ↦ false | some write ↦ true ]
    | some apply ↦ elim c.write [ none ↦ true | some write ↦ false ]
  ]

  abbrev pub seed_of : Contribution Json D → List (Seed Json D)
  seed_of c = elim c.apply [ none ↦ [] | some apply ↦ record { key = c.key; apply = apply } ∷ [] ]

  abbrev pub file_seed_of : Contribution Json D → List (FileSeed Json D)
  file_seed_of c = elim c.write [
    | none ↦ []
    | some write ↦ record { key = c.key; write = write } ∷ []
  ]

  -- The contributions of rows, in order, and those of files.
  abbrev pub seeds_of : List (Contribution Json D) → List (Seed Json D)
  seeds_of [] = []
  seeds_of (c ∷ cs) = seed_of c ++ seeds_of cs

  abbrev pub file_seeds_of : List (Contribution Json D) → List (FileSeed Json D)
  file_seeds_of [] = []
  file_seeds_of (c ∷ cs) = file_seed_of c ++ file_seeds_of cs

  -- Every contribution is of one kind, under a key that is none of `keys` and no earlier one's.
  abbrev pub wired : List String → List (Contribution Json D) → Bool
  wired keys [] = true
  wired keys (c ∷ cs) = not (any (λ k. k == c.key) keys) && one_kind c && wired (c.key ∷ keys) cs

  abbrev pub extended : Seeder Json D → List (Contribution Json D) → Seeder Json D
  extended s cs = record s { rows = s.rows ++ seeds_of cs; files = s.files ++ file_seeds_of cs }

  -- The contribution's own list is added to the seeder's.
  abbrev added : Seeder Json D → Contribution Json D → Seeder Json D
  added s c = record s { rows = s.rows ++ seed_of c; files = s.files ++ file_seed_of c }

  sorted_in_lem :
      (c : Contribution Json D) (s : Seeder Json D)
      → (one_kind c ≡ true × sorted_in c s ≡ ok (added s c))
        ⊎ (one_kind c ≡ false × (e : Error) × (sorted_in c s ≡ err e))
  unfolding sorted_in
  sorted_in_lem c s = elim (Option-cases c.apply) [
    | inl n ↦ elim (Option-cases c.write) [
      | inl m ↦ inr (rw (n, m), Error.plain "neither a Seed nor a FileSeed", rw (n, m))
      | inr (w, m) ↦ inl (rw (n, m), rw (n, m, append-nil s.rows))
    ]
    | inr (a, n) ↦ elim (Option-cases c.write) [
      | inl m ↦ inl (rw (n, m), rw (n, m, append-nil s.files))
      | inr (w, m) ↦ inr (rw (n, m), Error.plain "both a Seed and a FileSeed", rw (n, m))
    ]
  ]

  added-extended :
      (s : Seeder Json D) (c : Contribution Json D) (cs : List (Contribution Json D))
      → extended (added s c) cs ≡ extended s (c ∷ cs)
  added-extended s c cs = λ i. record s {
    rows = append_assoc s.rows (seed_of c) (seeds_of cs) i;
    files = append_assoc s.files (file_seed_of c) (file_seeds_of cs) i;
  }

  pub compose_lem :
      (keys : List String) (s : Seeder Json D) (cs : List (Contribution Json D))
      → ((wired keys cs ≡ true) × (compose keys s cs ≡ ok (extended s cs)))
        ⊎ ((wired keys cs ≡ false) × (e : Error) × (compose keys s cs ≡ err e))
  unfolding compose
  compose_lem keys s [] = inl (
    refl,
    λ i. ok (record s { rows = sym (append-nil s.rows) i; files = sym (append-nil s.files) i }),
  )
  compose_lem keys s (c ∷ cs) = elim (Bool-cases (any (λ k. k == c.key) keys)) [
    | inl used ↦
        inr (rw used, Error.plain "two seed contributions under one key", rw (compose, used))
    | inr fresh ↦ elim (sorted_in_lem c s) [
      | inr (kind, e, refused) ↦ inr (rw (fresh, kind), e, rw (compose, fresh, refused))
      | inl (kind, sorted) ↦ elim (compose_lem (c.key ∷ keys) (added s c) cs) [
        | inr (w, e, refused) ↦ inr (rw (fresh, kind, w), e, rw (compose, fresh, sorted, refused))
        | inl (w, composed) ↦ inl (
          rw (fresh, kind, w),
          rw (compose, fresh, sorted) composed ∙ ap ok (added-extended s c cs),
        )
      ]
    ]
  ]

-- The contributions that NewSeeder composes are exactly those of one kind each, under distinct keys;
-- the seeder has all of them, and those of rows and those of files in the order given.
pub new_seeder_iff :
    {Json D : Type 0} (cs : List (Contribution Json D)) {s : Seeder Json D}
    → (new_seeder cs ≡ ok s) ↔ (
        (wired [] cs ≡ true)
        × (s ≡ record { all = cs; rows = seeds_of cs; files = file_seeds_of cs }))
unfolding new_seeder
new_seeder_iff cs {s} = elim (compose_lem [] (record { all = cs; rows = []; files = [] }) cs) [
  | inl (w, composed) ↦ (λ h. (w, ground (arith, h, composed)), λ k. grind arith)
  | inr (w, e, refused) ↦ (λ h. ground (arith, h, refused), λ k. ground arith)
]
