-- ===== src/Data/Status/Laws.antt =====
-- The answers of data/status.go's Status, for every error.
use go_web_service.Prelude.{
  String, Bool, true, false, Option, none, some, Error, Sentinel, if◌then◌else◌,
}
use go_web_service.Data.Status.{
  Problem, status, database_status, request_detail, conflict, detail_name_taken, detail_not_empty,
  detail_deleting, detail_file_deleting, detail_referenced, detail_conflict, body_timeout_text,
  body_read_text,
}

-- What a problem may carry, by its status: a conflict one of the curated texts, a refused request
-- the text that names its own input, a timeout its own, and any other nothing.
pub data IsCurated (detail : String) : Problem → Type 0 where
  request : IsCurated detail (record { status = 400; detail = detail })
  body : IsCurated detail (record { status = 400; detail = body_read_text })
  timeout : IsCurated detail (record { status = 408; detail = body_timeout_text })
  taken : IsCurated detail (record { status = 409; detail = detail_name_taken })
  not_empty : IsCurated detail (record { status = 409; detail = detail_not_empty })
  directory_deleting : IsCurated detail (record { status = 409; detail = detail_deleting })
  file_deleting : IsCurated detail (record { status = 409; detail = detail_file_deleting })
  referenced : IsCurated detail (record { status = 409; detail = detail_referenced })
  conflicting : IsCurated detail (record { status = 409; detail = detail_conflict })
  missing : IsCurated detail (record { status = 404; detail = "" })
  stale : IsCurated detail (record { status = 412; detail = "" })
  large : IsCurated detail (record { status = 413; detail = "" })
  unavailable : IsCurated detail (record { status = 503; detail = "" })

pub data Answers (detail : String) : Option Problem → Type 0 where
  unanswered : Answers detail none
  answered : {p : Problem} → IsCurated detail p → Answers detail (some p)

Answers-if :
    (detail : String) (b : Bool) (p : Problem) (o : Option Problem)
    → IsCurated detail p
    → Answers detail o
    → Answers detail (if b then some p else o)
Answers-if detail true p o h k = answered h
Answers-if detail false p o h k = k

module _ (sentinel_text : Sentinel → String) where
  database_status-Answers :
      (e : Error) → Answers (request_detail sentinel_text e) (database_status sentinel_text e)
  unfolding database_status conflict
  database_status-Answers e =
      let d = request_detail sentinel_text e in
      let step = Answers-if d in
      step _ _ _ request (
        step _ _ _ missing
          (step _ _ _ conflicting (step _ _ _ stale (step _ _ _ unavailable unanswered))))

  -- Every error that Status answers carries a detail that belongs to its status: a 409 one of the
  -- six curated texts, a 400 the request's own refusal or the body's, a 408 the body's, and a 404,
  -- 412, 413 or 503 none. No other status is answered.
  pub status-Answers :
      (e : Error) → Answers (request_detail sentinel_text e) (status sentinel_text e)
  unfolding status
  status-Answers e =
      let d = request_detail sentinel_text e in
      let step = Answers-if d in
      step _ _ _ body (
        step _ _ _ timeout (
          step _ _ _ request (
            step _ _ _ missing (
              step _ _ _ taken (
                step _ _ _ not_empty (
                  step _ _ _ referenced (
                    step _ _ _ file_deleting (
                      step _ _ _ directory_deleting (
                        step _ _ _ conflicting (
                          step _ _ _ large
                            (step _ _ _ unavailable (database_status-Answers e))))))))))))
