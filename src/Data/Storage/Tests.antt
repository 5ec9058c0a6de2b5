-- ===== src/Data/Storage/Tests.antt =====
-- A put whose body broke off, and a stored file.
use go_web_service.Prelude.{
  ℕ, String, ◌≡◌, refl, some, List, [], ◌∷◌, Error, Sentinel, sentinel, wrap, Result, err, is,
}
use go_web_service.Blobfs.Sample.{file_row}
use go_web_service.Data.Status.{status, body_timeout_text}
use go_web_service.Data.Storage.{
  Read, bytes, failed, Stored, served, serve, timed_out, net_timeout, body_error, put_object,
}
use go_web_service.Data.Storage.Laws.{IsServed, serve-IsServed, put_object-status}

-- A read deadline that passed, in the words of the network's reads.
abbrev late : Error
late = wrap "read tcp" (sentinel Sentinel.deadline_exceeded)

abbrev broken_put : String → String → ℕ → Result Stored × List Read
broken_put key content_type size = (err (Error.plain "put failed"), bytes ∷ failed late ∷ [])

abbrev any_text : Sentinel → String
any_text s = "text"

put_object-status_example :
    (refused : Error) × (put_object broken_put "k" "text/plain" 3 ≡ err refused)
    × (status any_text refused ≡ some (record { status = 408; detail = body_timeout_text }))
unfolding body_error is timed_out net_timeout
put_object-status_example =
    put_object-status any_text broken_put "k" "text/plain" 3 (Error.plain "put failed") late
      (bytes ∷ failed late ∷ []) refl refl refl

serve-IsServed_example : IsServed (file_row "f") (record {
  object = record { content_type = "text/plain"; size = 3; etag = "etag"; modified_at = 0 };
  key = "key";
})
unfolding serve served
serve-IsServed_example = serve-IsServed (file_row "f") refl
