-- ===== src/Data/Directives/Values.antt =====
-- What a request's filters ask of a row, and what the lowered ones do.
use go_web_service.Prelude.{
  String, Bool, true, false, ◌≡◌, refl, sym, ap, ◌∙◌, Bool-cases, eq_refl, inl, inr, ◌&&◌, ◌||◌,
  List, [], ◌∷◌, ◌++◌, any, if◌then◌else◌, ◌==◌, arith,
}
use go_web_service.Data.Directives.{
  RequestFilter, RequestQuery, Filter, Value, Operators, operator, each_value, filters,
  filters_under, lower_filters, directives,
}

-- Whether every element passes the test.
abbrev pub all : {A : Type 0} → (A → Bool) → List A → Bool
all p [] = true
all p (x ∷ xs) = p x && all p xs

all-append :
    {A : Type 0} (p : A → Bool) (xs ys : List A) → all p (xs ++ ys) ≡ (all p xs && all p ys)
all-append p [] ys = refl
all-append p (x ∷ xs) ys = elim (Bool-cases (p x)) [
  | inl passes ↦ rw (passes, all-append p xs ys)
  | inr fails ↦ rw (fails)
]

-- The query library's reading of one row: whether the row's field passes an operator with a value,
-- with no value, and with several.
pub record Row : Type 0 where
  pub passes : String → String → String → Bool
  pub passes_bare : String → String → Bool
  pub passes_several : String → String → List String → Bool

and-true : (x : Bool) → (x && true) ≡ x
and-true true = refl
and-true false = refl

or-false : (x : Bool) → (x || false) ≡ x
or-false true = refl
or-false false = refl

module _ (ops : Operators) (row : Row) where
  -- What the library does with a filter: an operator with one value tests it, membership holds where
  -- the field equals one of its values, and an operator with no value tests the field.
  abbrev pub holds : Filter → Bool
  holds f = elim f.value [
    | Value.nothing ↦ row.passes_bare f.field f.op
    | Value.one v ↦ row.passes f.field f.op v
    | Value.all vs ↦
        if f.op == ops.op_in
        then any (row.passes f.field ops.op_eq) vs
        else row.passes_several f.field f.op vs
  ]

  -- A request's filter with no operator: no values ask nothing, and others that the field be one of
  -- them.
  abbrev pub equals_one : String → List String → Bool
  equals_one field [] = true
  equals_one field (v ∷ vs) = any (row.passes field ops.op_eq) (v ∷ vs)

  -- What a request's filter asks: by its operator, one of its values, none of them, or each of them.
  abbrev pub wanted : RequestFilter → Bool
  wanted f =
      if f.op == ""
      then equals_one f.field f.values
      else if f.op == ops.op_in
      then any (row.passes f.field ops.op_eq) f.values
      else if (f.op == ops.op_is_null) || (f.op == ops.op_is_not_null)
      then row.passes_bare f.field f.op
      else all (row.passes f.field f.op) f.values

  -- The library's operator for equality is neither that for membership nor one for null.
  abbrev pub Differ : Type 0
  Differ =
      ((ops.op_eq == ops.op_in) ≡ false)
      × ((ops.op_eq == ops.op_is_null || ops.op_eq == ops.op_is_not_null) ≡ false)

  holds-each_value :
      (field op : String) (vs : List String)
      → all holds (each_value field op vs) ≡ all (row.passes field op) vs
  unfolding each_value
  holds-each_value field op [] = refl
  holds-each_value field op (v ∷ vs) =
      ap (λ x. row.passes field op v && x) (holds-each_value field op vs)

  -- The filters under membership, under a test for null and under any other operator.
  holds-membership :
      (op : String) (f : RequestFilter)
      → (op == ops.op_in) ≡ true
      → all holds (filters_under ops op f) ≡ any (row.passes f.field ops.op_eq) f.values
  unfolding filters_under
  holds-membership op f member = rw (member, member) (and-true _)

  holds-null :
      (op : String) (f : RequestFilter)
      → (op == ops.op_in) ≡ false
      → (op == ops.op_is_null || op == ops.op_is_not_null) ≡ true
      → all holds (filters_under ops op f) ≡ row.passes_bare f.field op
  unfolding filters_under
  holds-null op f other tests = rw (other, tests) (and-true _)

  holds-values :
      (op : String) (f : RequestFilter)
      → (op == ops.op_in) ≡ false
      → (op == ops.op_is_null || op == ops.op_is_not_null) ≡ false
      → all holds (filters_under ops op f) ≡ all (row.passes f.field op) f.values
  unfolding filters_under
  holds-values op f other values = rw (other, values) (holds-each_value f.field op f.values)

  -- A filter that names its operator.
  holds-named :
      (f : RequestFilter) → (f.op == "") ≡ false → all holds (filters_under ops f.op f) ≡ wanted f
  holds-named f named = elim (Bool-cases (f.op == ops.op_in)) [
    | inl member ↦ holds-membership f.op f member ∙ sym (rw (named, member) refl)
    | inr other ↦ elim (Bool-cases (f.op == ops.op_is_null || f.op == ops.op_is_not_null)) [
      | inl tests ↦ holds-null f.op f other tests ∙ sym (rw (named, other, tests) refl)
      | inr values ↦ holds-values f.op f other values ∙ sym (rw (named, other, values) refl)
    ]
  ]

  operator-named : (f : RequestFilter) → (f.op == "") ≡ false → operator ops f ≡ f.op
  unfolding operator
  operator-named f named = rw (named)

  -- The operator of one that names none, by its values.
  abbrev meant : List String → String
  meant [] = ops.op_eq
  meant (v ∷ []) = ops.op_eq
  meant (v ∷ w ∷ vs) = ops.op_in

  operator-unnamed :
      (f : RequestFilter) (vs : List String)
      → f.values ≡ vs
      → (f.op == "") ≡ true
      → operator ops f ≡ meant vs
  unfolding operator
  operator-unnamed f [] same unnamed = rw (unnamed, same)
  operator-unnamed f (v ∷ []) same unnamed = rw (unnamed, same)
  operator-unnamed f (v ∷ w ∷ vs) same unnamed = rw (unnamed, same) (ground arith)

  holds-unnamed :
      (f : RequestFilter) (vs : List String)
      → f.values ≡ vs
      → Differ
      → all holds (filters_under ops (meant vs) f) ≡ equals_one f.field vs
  holds-unnamed f [] same (apart, values) =
      holds-values ops.op_eq f apart values ∙ ap (all (row.passes f.field ops.op_eq)) same
  holds-unnamed f (v ∷ []) same (apart, values) =
      holds-values ops.op_eq f apart values
      ∙ ap (all (row.passes f.field ops.op_eq)) same
      ∙ and-true (row.passes f.field ops.op_eq v)
      ∙ sym (or-false (row.passes f.field ops.op_eq v))
  holds-unnamed f (v ∷ w ∷ vs) same d =
      holds-membership ops.op_in f (eq_refl ops.op_in)
      ∙ ap (any (row.passes f.field ops.op_eq)) same

  holds-filters : (f : RequestFilter) → Differ → all holds (filters ops f) ≡ wanted f
  unfolding filters
  holds-filters f d = elim (Bool-cases (f.op == "")) [
    | inr named ↦
        ap (λ op. all holds (filters_under ops op f)) (operator-named f named) ∙ holds-named f named
    | inl unnamed ↦
        ap (λ op. all holds (filters_under ops op f)) (operator-unnamed f f.values refl unnamed)
        ∙ holds-unnamed f f.values refl d
        ∙ sym (rw (unnamed) refl)
  ]

  lowered : (fs : List RequestFilter) → Differ → all holds (lower_filters ops fs) ≡ all wanted fs
  unfolding lower_filters
  lowered [] d = refl
  lowered (f ∷ fs) d =
      all-append holds (filters ops f) (lower_filters ops fs)
      ∙ (λ i. holds-filters f d i && lowered fs d i)

  -- Where the library's operator for equality is neither that for membership nor one for null, a row
  -- passes the lowered filters exactly where it passes each of the request's: one of the values
  -- where the filter names membership, or no operator and has any; the test for null, which takes no
  -- value; and under any other operator, every value.
  pub directives-requested :
      (q : RequestQuery) → Differ → all holds (directives ops q).filters ≡ all wanted q.filters
  unfolding directives
  directives-requested q d = lowered q.filters d
