-- ===== src/Data/Storage/Laws.antt =====
-- What a download serves, and what an upload's failures answer.
use go_web_service.Prelude.{
  ℕ, String, ◌≡◌, refl, ap, sym, ◌∙◌, Bool, true, false, [], ◌∷◌, ◌++◌, same, Typed, Option, none,
  some, List, arith, if◌then◌else◌, Error, Sentinel, sentinel, join, Result, ok, err, is,
  Bool-cases, inl, inr,
}
use go_web_service.Blobfs.{FileRow, FileRowStatus}
use go_web_service.Data.Status.{status, body_read_text, body_timeout_text}
use go_web_service.Data.Storage.{
  Download, served, serve, typed_timeout, or_else, net_timeout, reported, timed_out, Read,
  body_error, Stored, put_refusal, put_object, put_outcome,
}

-- The file is available, and its completion's size and entity tag stand.
pub record IsServed (file : FileRow) (d : Download) : Type 0 where
  pub available : file.status ≡ FileRowStatus.available
  pub size : file.size ≡ some d.object.size
  pub etag : file.etag ≡ some d.object.etag
  pub content_type : d.object.content_type ≡ file.content_type
  pub key : d.key ≡ file.key

served-IsServed :
    (file : FileRow) (s : FileRowStatus) (size : Option ℕ) (etag : Option String) {d : Download}
    → file.status ≡ s
    → file.size ≡ size
    → file.etag ≡ etag
    → served file s size etag ≡ ok d
    → IsServed file d
unfolding served
served-IsServed file FileRowStatus.available (some n) (some t) a b c h = record {
  available = a;
  size = ground arith;
  etag = ground arith;
  content_type = ground arith;
  key = ground arith;
}
served-IsServed file FileRowStatus.available (some n) none a b c h = absurd (ground arith)
served-IsServed file FileRowStatus.available none t a b c h = absurd (ground arith)
served-IsServed file FileRowStatus.pending n t a b c h = absurd (ground arith)
served-IsServed file FileRowStatus.deleting n t a b c h = absurd (ground arith)
served-IsServed file (FileRowStatus.unknown s) n t a b c h = absurd (ground arith)

-- A file that is served is available, with its size and entity tag: a pending upload and a file whose
-- delete has begun never are.
pub serve-IsServed : (file : FileRow) {d : Download} → serve file ≡ ok d → IsServed file d
unfolding serve
serve-IsServed file h = served-IsServed file file.status file.size file.etag refl refl refl h

-- What Timeout answers of each net.Error that an error holds, from the outside in, the first branch
-- first: a passed deadline, of the system or of a context, is one that reports Timeout.
abbrev pub typed_timeouts : Typed → List Bool
typed_timeouts (Typed.net_error t) = t ∷ []
typed_timeouts _ = []

abbrev pub timeouts : Error → List Bool
timeouts (sentinel s) = if same s Sentinel.deadline_exceeded then true ∷ [] else []
timeouts (Error.plain _) = []
timeouts (Error.wrap _ e) = timeouts e
timeouts (join a b) = timeouts a ++ timeouts b
timeouts (Error.typed t _ e) = typed_timeouts t ++ timeouts e

abbrev first : List Bool → Option Bool
first [] = none
first (t ∷ ts) = some t

-- An error is a timeout where its first net.Error reports one.
abbrev pub starts_true : List Bool → Bool
starts_true [] = false
starts_true (t ∷ ts) = t

first-append : (xs ys : List Bool) → or_else (first xs) (first ys) ≡ first (xs ++ ys)
first-append [] ys = refl
first-append (t ∷ xs) ys = refl

joined :
    {x y : Option Bool} (xs ys : List Bool)
    → x ≡ first xs
    → y ≡ first ys
    → or_else x y ≡ first (xs ++ ys)
joined xs ys h k = (λ i. or_else (h i) (k i)) ∙ first-append xs ys

typed_timeout-timeouts : (t : Typed) → typed_timeout t ≡ first (typed_timeouts t)
typed_timeout-timeouts Typed.cursor_error = refl
typed_timeout-timeouts Typed.unknown_field = refl
typed_timeout-timeouts Typed.unknown_operator = refl
typed_timeout-timeouts Typed.invalid_value = refl
typed_timeout-timeouts Typed.name_error = refl
typed_timeout-timeouts Typed.id_error = refl
typed_timeout-timeouts (Typed.deleting_error d) = refl
typed_timeout-timeouts (Typed.constraint_error class name) = refl
typed_timeout-timeouts (Typed.upload_error header) = refl
typed_timeout-timeouts (Typed.net_error t) = refl

net_timeout-timeouts : (e : Error) → net_timeout e ≡ first (timeouts e)
unfolding net_timeout
net_timeout-timeouts (sentinel s) = elim (Bool-cases (same s Sentinel.deadline_exceeded)) [
  | inl passed ↦ rw (passed)
  | inr other ↦ rw (other)
]
net_timeout-timeouts (Error.plain s) = refl
net_timeout-timeouts (Error.wrap s e) = net_timeout-timeouts e
net_timeout-timeouts (join a b) =
    joined (timeouts a) (timeouts b) (net_timeout-timeouts a) (net_timeout-timeouts b)
net_timeout-timeouts (Error.typed t s e) =
    joined (typed_timeouts t) (timeouts e) (typed_timeout-timeouts t) (net_timeout-timeouts e)

reported-first : (ts : List Bool) → reported (first ts) ≡ starts_true ts
reported-first [] = refl
reported-first (t ∷ ts) = refl

timed_out-timeouts : (e : Error) → timed_out e ≡ starts_true (timeouts e)
unfolding timed_out
timed_out-timeouts e = ap reported (net_timeout-timeouts e) ∙ reported-first (timeouts e)

module _ (sentinel_text : Sentinel → String) where
  -- A put that fails after its body failed, with an error that does not wrap the adapter's own
  -- ErrBodyRead, is answered as the client's fault, whatever the store reported: 408 where the first
  -- net.Error that the body's error holds reports Timeout, as a passed deadline does, 400 for any
  -- other failure of the body.
  pub put_object-status :
      (put : String → String → ℕ → Result Stored × List Read) (key content_type : String) (size : ℕ)
      (e r : Error) (reads : List Read)
      → put key content_type size ≡ (err e, reads)
      → body_error reads ≡ some r
      → is r Sentinel.body_read ≡ false
      → (refused : Error) × (put_object put key content_type size ≡ err refused)
        × (status sentinel_text refused
            ≡ some (
                if starts_true (timeouts r)
                then record { status = 408; detail = body_timeout_text }
                else record { status = 400; detail = body_read_text }))
  unfolding put_object put_outcome put_refusal status is
  put_object-status put key content_type size e r reads failed broken other =
      let same_test = timed_out-timeouts r in
      elim (Bool-cases (timed_out r)) [
        | inl late ↦
            let passed : starts_true (timeouts r) ≡ true = sym same_test ∙ late in
            (join (sentinel Sentinel.body_timeout) r, ground arith, ground arith)
        | inr short ↦
            let passed : starts_true (timeouts r) ≡ false = sym same_test ∙ short in
            (join (sentinel Sentinel.body_read) r, ground arith, ground arith)
      ]
