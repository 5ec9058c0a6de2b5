-- ===== src/Organization/Handler/Tests.antt =====
-- A create whose body decodes, over an empty table.
use go_web_service.Prelude.{String, Bool, true, none, [], arith, ok}
use go_web_service.Database.{Database}
use go_web_service.Organization.Backend.Sample.{backend}
use go_web_service.Organization.Schema.{find_row}
use go_web_service.Organization.Store.Invariant.{IsSound}
use go_web_service.Organization.Handler.{Request, create_request, handle}
use go_web_service.Organization.Handler.Requests.{IsHandled, handle-IsHandled}

abbrev empty : Database Bool
empty = record { organizations = []; images = []; owners = []; tree = true; outbox = [] }

no_row-IsSound : IsSound {Tree = Bool} backend empty
unfolding find_row
no_row-IsSound = record {
  keys = tt;
  checks = λ id r h. absurd (ground arith);
  siblings = λ i j a b h k e. absurd (ground arith);
  forest = λ id r h. absurd (ground arith);
}

abbrev is_uuid : String → Bool
is_uuid s = true

abbrev request : Request
request =
    create_request "/organizations" (ok (record { parent_id = none; code = "acme"; name = "Acme" }))

handle-IsHandled_example : IsHandled backend empty (handle backend is_uuid request empty)
handle-IsHandled_example = handle-IsHandled backend empty no_row-IsSound is_uuid request
