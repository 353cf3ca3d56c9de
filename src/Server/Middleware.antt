-- ===== src/Server/Middleware.antt =====
-- server/middleware/middleware.go: which requests reach the handlers. `mime.ParseMediaType`, an
-- error of it as none, is an argument.
use redis_agent.Common.{
  ℕ, [], Bytes, codes, same_bytes, same_bytes_refl, Option, none, some, Option-cases, ◌⊎◌, inl, inr,
  Bool, true, if◌then◌else◌, ◌≡◌, refl,
}
use redis_agent.Task.{GenericTaskInfo, Tasks}
use redis_agent.Server.{ParamDecoder, Response, unsupported_media_type, create_task_request}

abbrev pub application_json : Bytes
application_json = codes "application/json"

-- The media type after the error is dropped: an empty one.
abbrev pub type_or_empty : Option Bytes → Bytes
type_or_empty none = []
type_or_empty (some media_type) = media_type

-- A header that cannot be parsed is set to that of JSON, and parsed again.
abbrev pub media_type_of : (Bytes → Option Bytes) → Option Bytes → Bytes
media_type_of parse none = type_or_empty (parse application_json)
media_type_of parse (some media_type) = media_type

-- Whether `Validating` passes the request on; otherwise it answers that the type is unsupported.
unfoldable pub validating : (Bytes → Option Bytes) → Bytes → Bool
validating parse content_type =
    same_bytes (media_type_of parse (parse content_type)) application_json

abbrev pub unsupported : Bytes
unsupported = codes "invalid Content-Type"

-- `createTask` behind the middleware.
unfoldable pub handled :
    (Bytes → Option Bytes)
    → Bytes
    → ParamDecoder
    → ℕ
    → ℕ
    → Bytes
    → Bytes ⊎ GenericTaskInfo
    → Tasks
    → Tasks × Response
handled parse content_type decode now later time_str body ts =
    if validating parse content_type
    then create_task_request decode now later time_str body ts
    else (ts, unsupported_media_type unsupported)

-- With a parser that leaves the type of JSON as it is, a request comes to the handler just when its
-- header cannot be parsed or has that type.
pub validating_lem :
    (parse : Bytes → Option Bytes) (content_type : Bytes)
    → parse application_json ≡ some application_json
    → ((validating parse content_type ≡ true) × (parse content_type ≡ none))
      ⊎ ((media_type : Bytes) × (parse content_type ≡ some media_type)
          × (validating parse content_type ≡ same_bytes media_type application_json))
unfolding validating
validating_lem parse content_type json = elim (Option-cases (parse content_type)) [
  | inl unread ↦ inl (rw (unread, json) (same_bytes_refl application_json), unread)
  | inr (media_type, read) ↦ inr (media_type, read, rw read refl)
]
