-- ===== src/Data/Status/Tests.antt =====
-- The status of an error that the store wrapped twice.
use go_web_service.Prelude.{String, ◌≡◌, ◌∷◌, [], Error, Sentinel, sentinel, wrap}
use go_web_service.Data.Status.{status, request_detail}
use go_web_service.Data.Status.Laws.{Answers, status-Answers}
use go_web_service.Data.Status.Detail.{wraps, status-wraps}

abbrev no_text : Sentinel → String
no_text s = "blobfs: invalid name"

abbrev refused : Error
refused = wrap "create directory" (sentinel Sentinel.invalid_name)

status-Answers_example : Answers (request_detail no_text refused) (status no_text refused)
status-Answers_example = status-Answers no_text refused

status-wraps_example :
    status no_text (wraps ("service" ∷ "store" ∷ []) refused) ≡ status no_text refused
status-wraps_example = status-wraps no_text ("service" ∷ "store" ∷ []) refused
