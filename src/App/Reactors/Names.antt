-- ===== src/App/Reactors/Names.antt =====
-- The names that the sweeper's registrations have.
use go_web_service.Prelude.{
  suc, String, String-cases, ◌≡◌, ◌≢◌, refl, subst, ap, ◌∙◌, true, false, inl, inr, some,
  Option-cases, Bool-cases, List, [], ◌∷◌, length, any, arith, ◌==◌, eq_iff, if◌then◌else◌, Result,
  ok, err, result_cases,
}
use go_web_service.Data.Seeds.{lookup}
use go_web_service.App.Reactors.{
  reclaim_files, reclaim_outbox, reclaim_inbox, reclaimers, Policy, Registration, registered,
  counted, registrations,
}

-- The map without the first entry under the key.
erase : {A : Type 0} → String → List (String × A) → List (String × A)
erase key [] = []
erase key ((k, a) ∷ m) = let rest = erase key m in if k == key then m else (k, a) ∷ rest

length-erase :
    {A : Type 0} (key : String) (m : List (String × A)) {a : A}
    → lookup key m ≡ some a
    → length m ≡ suc (length (erase key m))
unfolding lookup erase
length-erase key [] h = cc
length-erase key ((k, a) ∷ m) h = elim (String-cases k key) [
  | inl same ↦ rw ((eq_iff k key).1 same)
  | inr (other, test) ↦ rw test (ap (λ n. suc n) (length-erase key m (rw (lookup, test) at h)))
]

lookup-erase :
    {A : Type 0} (key j : String) (m : List (String × A))
    → j ≢ key
    → lookup j (erase key m) ≡ lookup j m
unfolding lookup erase
lookup-erase key j [] d = refl
lookup-erase key j ((k, a) ∷ m) d = elim (String-cases k key) [
  | inl same ↦ grind (arith, eq_iff)
  | inr (other, test) ↦ rw (test, lookup-erase key j m d)
]

one_of :
    (name : String)
    → any (λ n. n == name) reclaimers ≡ false
    → (other : String) → any (λ n. n == other) reclaimers ≡ true
    → name ≢ other
one_of name h other k e =
    ground (arith, k, subst (λ (x : String). any (λ n. n == x) reclaimers ≡ false) e h)

unequal : (a b : String) → (a == b) ≡ false → a ≢ b
unequal a b h e = ground (arith, h, (eq_iff a b).1 e)

differs :
    (name : String)
    → any (λ n. n == name) reclaimers ≡ false
    → (name ≢ reclaim_files) × (name ≢ reclaim_outbox) × (name ≢ reclaim_inbox)
differs name h = (
  one_of name h reclaim_files refl,
  one_of name h reclaim_outbox refl,
  one_of name h reclaim_inbox refl,
)

module _ {R : Type 0} (built : List (String × R)) (policy : Policy) where
  abbrev registration : String → R → Registration R
  registration name r = record { name = name; reclaimer = r; policy = policy }

  -- The registrations of the three reclaimers.
  pub record IsRegistered (regs : List (Registration R)) : Type 0 where
    pub files : R
    pub outbox : R
    pub inbox : R
    pub has_files : lookup reclaim_files built ≡ some files
    pub has_outbox : lookup reclaim_outbox built ≡ some outbox
    pub has_inbox : lookup reclaim_inbox built ≡ some inbox
    pub all :
        regs
        ≡ registration reclaim_files files
          ∷ registration reclaim_outbox outbox
          ∷ registration reclaim_inbox inbox
          ∷ []
    pub size : length built ≡ 3

  registered-next :
      (name : String) (names : List String) {regs : List (Registration R)}
      → registered built policy (name ∷ names) ≡ ok regs
      → (r : R) × (rest : List (Registration R)) × (lookup name built ≡ some r)
        × (registered built policy names ≡ ok rest)
        × (regs ≡ registration name r ∷ rest)
  unfolding registered
  registered-next name names h = elim (Option-cases (lookup name built)) [
    | inl absent ↦ absurd (ground (arith, h, absent))
    | inr (r, found) ↦ elim (result_cases (registered built policy names)) [
      | inl (rest, others) ↦ (r, rest, found, others, ground (arith, h, found, others))
      | inr (e, refused) ↦ absurd (ground (arith, h, found, refused))
    ]
  ]

  ended : {regs : List (Registration R)} → registered built policy [] ≡ ok regs → regs ≡ []
  unfolding registered
  ended h = ground (arith, h)

  counted-ok :
      (x : Result (List (Registration R))) {regs : List (Registration R)}
      → counted built x ≡ ok regs
      → (x ≡ ok regs) × (length built ≡ length regs)
  unfolding counted
  counted-ok (ok r) h = ground (arith, h)
  counted-ok (err e) h = cc

  pub registrations-IsRegistered :
      {regs : List (Registration R)} → registrations built policy ≡ ok regs → IsRegistered regs
  unfolding registrations
  registrations-IsRegistered {regs} h =
      let (ran, size) = counted-ok (registered built policy reclaimers) h in
      let (files, r1, has_files, h1, e1) =
        registered-next reclaim_files (reclaim_outbox ∷ reclaim_inbox ∷ []) ran in
      let (outbox, r2, has_outbox, h2, e2) =
        registered-next reclaim_outbox (reclaim_inbox ∷ []) h1 in
      let (inbox, r3, has_inbox, h3, e3) = registered-next reclaim_inbox [] h2 in
      let last : r3 ≡ [] = ended h3 in
      let all : regs
          ≡ registration reclaim_files files
            ∷ registration reclaim_outbox outbox
            ∷ registration reclaim_inbox inbox
            ∷ [] =
        ground (arith, e1, e2, e3, last) in
      record {
        files = files;
        outbox = outbox;
        inbox = inbox;
        has_files = has_files;
        has_outbox = has_outbox;
        has_inbox = has_inbox;
        all = all;
        size = size ∙ ap (λ (l : List (Registration R)). length l) all;
      }

  -- A map of three entries under the three names has no other.
  none_other :
      (name : String) {r : R} {regs : List (Registration R)}
      → IsRegistered regs
      → lookup name built ≡ some r
      → any (λ n. n == name) reclaimers ≡ false
      → ⊥
  none_other name i k other =
      let (not_files, not_outbox, not_inbox) = differs name other in
      let second = erase reclaim_files built in
      let third = erase reclaim_outbox second in
      let rest = erase reclaim_inbox third in
      let n1 = length-erase reclaim_files built i.has_files in
      let has_outbox =
        lookup-erase reclaim_files reclaim_outbox built (unequal reclaim_outbox reclaim_files refl)
        ∙ i.has_outbox in
      let n2 = length-erase reclaim_outbox second has_outbox in
      let has_inbox =
        lookup-erase reclaim_outbox reclaim_inbox second (unequal reclaim_inbox reclaim_outbox refl)
        ∙ lookup-erase reclaim_files reclaim_inbox built (unequal reclaim_inbox reclaim_files refl)
        ∙ i.has_inbox in
      let n3 = length-erase reclaim_inbox third has_inbox in
      let has_name =
        lookup-erase reclaim_inbox name third not_inbox
        ∙ lookup-erase reclaim_outbox name second not_outbox
        ∙ lookup-erase reclaim_files name built not_files
        ∙ k in
      let n4 = length-erase name rest has_name in omega (arith, i.size, n1, n2, n3, n4)

  -- The registrations that stand are those of the three reclaimers named, in their order, each under
  -- the policy; and a reclaimer built under any other name refuses them all.
  pub registrations-named :
      (name : String) {r : R} {regs : List (Registration R)}
      → registrations built policy ≡ ok regs
      → lookup name built ≡ some r
      → IsRegistered regs × (any (λ n. n == name) reclaimers ≡ true)
  registrations-named name h k =
      let i = registrations-IsRegistered h in
      (
        i,
        elim (Bool-cases (any (λ n. n == name) reclaimers)) [
          | inl named ↦ named
          | inr other ↦ absurd (none_other name i k other)
        ],
      )
