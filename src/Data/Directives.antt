-- ===== src/Data/Directives.antt =====
-- data/directives.go: a parsed request's query as the read directives of a library. web.Query and the
-- query package's types are records; the operators' names, and the total that says a read did not
-- count, are the library's constants.
pub mod Values
mod Tests
use go_web_service.Prelude.{
  ℕ, String, Bool, ◌||◌, Option, none, some, List, [], ◌∷◌, ◌++◌, map, length, ◌<◌, if◌then◌else◌,
  ◌==◌, ltb, ℤ, ◌=ℤ=◌, Result,
}

-- web.Sort, query.Sort
pub record Sort : Type 0 where
  pub field : String
  pub descending : Bool

-- web.Filter
pub record RequestFilter : Type 0 where
  pub field : String
  pub op : String
  pub values : List String

-- web.Query
pub record RequestQuery : Type 0 where
  pub sort : List Sort
  pub filters : List RequestFilter
  pub cursor : String
  pub page : ℤ
  pub size : ℤ

-- The value of a query.Filter: nil, one, or all of a request's values.
pub data Value : Type 0 where
  nothing : Value
  one : String → Value
  all : List String → Value

-- query.Filter
pub record Filter : Type 0 where
  pub field : String
  pub op : String
  pub value : Value

-- query.Directives
pub record Directives : Type 0 where
  pub sort : List Sort
  pub filters : List Filter

-- query.OpEq, query.OpIn, query.OpIsNull, query.OpIsNotNull
pub record Operators : Type 0 where
  pub op_eq : String
  pub op_in : String
  pub op_is_null : String
  pub op_is_not_null : String

-- query.Collection
pub record Collection (T : Type 0) : Type 0 where
  pub items : List T
  pub more : Bool
  pub next : String
  pub total : ℤ

-- web.Paging
pub record Paging : Type 0 where
  pub more : Bool
  pub next : String
  pub total : Option ℤ

-- One filter per value.
unfoldable pub each_value : String → String → List String → List Filter
each_value field op [] = []
each_value field op (v ∷ vs) =
    record { field = field; op = op; value = Value.one v } ∷ each_value field op vs

module _ (ops : Operators) where
  -- The operator that a filter means.
  unfoldable pub operator : RequestFilter → String
  operator f =
      if f.op == "" then (if ltb 1 (length f.values) then ops.op_in else ops.op_eq) else f.op

  -- The filters of a request's filter whose operator is `op`.
  unfoldable pub filters_under : String → RequestFilter → List Filter
  unfolding each_value
  filters_under op f =
      if op == ops.op_in
      then record { field = f.field; op = op; value = Value.all f.values } ∷ []
      else if (op == ops.op_is_null) || (op == ops.op_is_not_null)
      then record { field = f.field; op = op; value = Value.nothing } ∷ []
      else each_value f.field op f.values

  unfoldable pub filters : RequestFilter → List Filter
  unfolding operator filters_under
  filters f = filters_under (operator f) f

  unfoldable pub lower_filters : List RequestFilter → List Filter
  lower_filters [] = []
  lower_filters (f ∷ fs) = filters f ++ lower_filters fs

  -- Directives
  unfoldable pub directives : RequestQuery → Directives
  unfolding lower_filters
  directives q = record { sort = q.sort; filters = lower_filters q.filters }

-- query.Projection's reads on a session, with their base arguments.
pub record Projection (T S : Type 0) : Type 0 where
  pub list : Directives → ℤ → ℤ → S → Result (Collection T)
  pub continue : Directives → String → ℤ → S → Result (Collection T)

-- bfdata.Listing: the reads of the rows under a directory.
pub record Listing (T S : Type 0) : Type 0 where
  pub list : String → Directives → ℤ → ℤ → S → Result (Collection T)
  pub continue : String → Directives → String → ℤ → S → Result (Collection T)

module _ {T S : Type 0} (ops : Operators) where
  -- Read
  unfoldable pub read : Projection T S → RequestQuery → S → Result (Collection T)
  read p q s =
      if q.cursor == ""
      then p.list (directives ops q) q.page q.size s
      else p.continue (directives ops q) q.cursor q.size s

  -- ReadListing
  unfoldable pub read_listing : Listing T S → String → RequestQuery → S → Result (Collection T)
  read_listing l id q s =
      if q.cursor == ""
      then l.list id (directives ops q) q.page q.size s
      else l.continue id (directives ops q) q.cursor q.size s

-- Paging; `no_total` is query.NoTotal.
unfoldable pub paging : {T : Type 0} → ℤ → Collection T → Paging
paging no_total c = record {
  more = c.more;
  next = c.next;
  total = if c.total =ℤ= no_total then none else some c.total;
}
