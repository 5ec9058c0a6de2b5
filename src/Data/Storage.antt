-- ===== src/Data/Storage.antt =====
-- data/storage.go: the object store's adapter, whose failures it tells apart, and what serves a file.
-- The object store is the parameter `put`.
pub mod Laws
mod Tests
use go_web_service.Prelude.{
  ℕ, zero, suc, String, Bool, true, false, Option, none, some, List, [], ◌∷◌, if◌then◌else◌, Error,
  Sentinel, sentinel, wrap, join, Typed, same, if◌then◌else◌, Result, ok, err,
}
use go_web_service.Blobfs.{FileRow, FileRowStatus}

-- web.Object and Download: `key` is what the download's Open streams.
pub record Object : Type 0 where
  pub content_type : String
  pub size : ℕ
  pub etag : String
  pub modified_at : ℕ

pub record Download : Type 0 where
  pub object : Object
  pub key : String

abbrev pub not_served : Error
not_served = wrap "file" (sentinel Sentinel.not_found)

-- Serve
unfoldable pub served : FileRow → FileRowStatus → Option ℕ → Option String → Result Download
served file FileRowStatus.available (some size) (some etag) = ok (record {
  object = record {
    content_type = file.content_type;
    size = size;
    etag = etag;
    modified_at = file.updated_at;
  };
  key = file.key;
})
served file FileRowStatus.available (some size) none = err not_served
served file FileRowStatus.available none etag = err not_served
served file FileRowStatus.pending size etag = err not_served
served file FileRowStatus.deleting size etag = err not_served
served file (FileRowStatus.unknown s) size etag = err not_served

unfoldable pub serve : FileRow → Result Download
unfolding served
serve file = served file file.status file.size file.etag

-- The net.Error of a sentinel: os.ErrDeadlineExceeded and context.DeadlineExceeded are ones, that
-- report Timeout.
abbrev pub sentinel_timeout : Sentinel → Option Bool
sentinel_timeout s = if same s Sentinel.deadline_exceeded then some true else none

abbrev pub typed_timeout : Typed → Option Bool
typed_timeout (Typed.net_error timeout) = some timeout
typed_timeout _ = none

abbrev pub or_else : Option Bool → Option Bool → Option Bool
or_else none y = y
or_else (some t) y = some t

-- errors.As for a net.Error: what Timeout answers of the first one.
unfoldable pub net_timeout : Error → Option Bool
net_timeout (sentinel s) = sentinel_timeout s
net_timeout (Error.plain _) = none
net_timeout (wrap _ e) = net_timeout e
net_timeout (join a b) = or_else (net_timeout a) (net_timeout b)
net_timeout (Error.typed t _ e) = or_else (typed_timeout t) (net_timeout e)

abbrev pub reported : Option Bool → Bool
reported none = false
reported (some timeout) = timeout

-- timedOut
unfoldable pub timed_out : Error → Bool
timed_out e = reported (net_timeout e)

-- One read of the request's body: bytes, its end, or a failure.
pub data Read : Type 0 where
  bytes : Read
  eof : Read
  failed : Error → Read

-- bodyReader.Read, over the reads that the store made: the first error but io.EOF.
unfoldable pub body_error : List Read → Option Error
body_error [] = none
body_error (bytes ∷ reads) = body_error reads
body_error (eof ∷ reads) = body_error reads
body_error (failed e ∷ reads) = some e

-- What the store reports of an object, and what blobfs records of it.
pub record Stored : Type 0 where
  pub size : ℕ
  pub etag : String

pub record StoredObject : Type 0 where
  pub size : ℕ
  pub content_type : String
  pub etag : String

-- The refusal of a failed put: its body's failure before the store's.
unfoldable pub put_refusal : Option Error → Error → Error
unfolding timed_out
put_refusal none e = e
put_refusal (some r) e =
    if timed_out r
    then join (sentinel Sentinel.body_timeout) r
    else join (sentinel Sentinel.body_read) r

-- `put` is the store's Put: what it returns, and the reads of the body that it made.
module _ (put : String → String → ℕ → Result Stored × List Read) where
  put_outcome : String → Result Stored × List Read → Result StoredObject
  put_outcome content_type (ok obj, reads) =
      ok (record { size = obj.size; content_type = content_type; etag = obj.etag })
  put_outcome content_type (err e, reads) = err (put_refusal (body_error reads) e)

  -- PutObject
  unfoldable pub put_object : String → String → ℕ → Result StoredObject
  unfolding put_outcome body_error
  put_object key content_type size = put_outcome content_type (put key content_type size)
