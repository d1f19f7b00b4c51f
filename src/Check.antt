-- ===== src/Check.antt =====
-- The update check (src/clientCheck.ts): the remote endpoint lists and one request of a check. Its
-- children are the reuse of the native response and the window that concurrent checks share.
pub mod Laws
pub mod Cache
pub mod Window
mod Tests
use react_native_pushy.Common.{
  ℕ, String, Bool, true, false, not, ◌&&◌, Option, none, some, List, [], ◌∷◌, map, length, take,
  if◌then◌else◌,
}
use react_native_pushy.Common.Text.{units}
use react_native_pushy.Json.{Value, str, arr, obj, Items, no_items, item, Fields}
use react_native_pushy.Flow.Endpoints.{dedupe_endpoints}
use react_native_pushy.Flow.Verdict.{is_valid_check_result}
use react_native_pushy.Download.Mirrors.{
  starts_with, Settled, pending, rejected, resolved, promise_any,
}

-- What a request comes to: the response and its two readings, none where reading it fails.
pub record Response : Type 0 where
  pub ok : Bool
  pub status : ℕ
  pub text : Option String
  pub json : Option Value

pub data Reply : Type 0 where
  unreachable : Reply
  responds : Response → Reply

abbrev pub list_of : Option Value → Option Items
list_of (some (arr items)) = some items
list_of _ = none

-- The promise of one query URL: only a list counts as an answer.
unfoldable pub queried_list : Reply → Option Items
queried_list unreachable = none
queried_list (responds r) = if not r.ok then none else list_of r.json

-- `typeof endpoint === 'string' && /^https:\/\//i.test(endpoint)`.
abbrev pub is_https_text : Value → Bool
is_https_text (str s) = starts_with "https://" s
is_https_text _ = false

abbrev pub text_of : Value → Option String
text_of (str s) = some s
text_of _ = none

unfoldable pub https_only : Items → List (Option String)
https_only no_items = []
https_only (item v vs) = if is_https_text v then text_of v ∷ https_only vs else https_only vs

unfoldable pub remote_of : Settled Items → Option (List String)
unfolding https_only dedupe_endpoints
remote_of pending = none
remote_of rejected = some []
remote_of (resolved endpoints) = some (dedupe_endpoints (https_only endpoints))

-- `getRemoteEndpoints`, with the replies in the order in which they settle; none while it waits.
unfoldable pub get_remote_endpoints : List String → List Reply → Option (List String)
unfolding queried_list promise_any remote_of
get_remote_endpoints [] replies = some []
get_remote_endpoints (url ∷ urls) replies =
    remote_of (promise_any (length (url ∷ urls)) (map queried_list replies))

-- What a check request is refused for. The text is cut to 200 code units.
pub data CheckFailure : Type 0 where
  unreadable : CheckFailure
  http_status : ℕ → List ℕ → CheckFailure
  invalid_response : CheckFailure

pub data CheckAnswer : Type 0 where
  verdict : Fields → CheckAnswer
  fails : CheckFailure → CheckAnswer

abbrev pub max_http_error_text : ℕ
max_http_error_text = 200

abbrev pub http_failure : ℕ → Option String → CheckFailure
http_failure status none = unreadable
http_failure status (some text) = http_status status (take max_http_error_text (units text))

-- A 2xx that is not a verdict is a failed endpoint.
unfoldable pub verdict_of : Option Value → CheckAnswer
verdict_of (some (obj fs)) =
    if is_valid_check_result (obj fs) then verdict fs else fails invalid_response
verdict_of (some v) = fails invalid_response
verdict_of none = fails unreadable

-- `requestCheckResult`, from what the request comes to.
unfoldable pub request_check_result : Reply → CheckAnswer
unfolding verdict_of
request_check_result unreachable = fails unreadable
request_check_result (responds r) =
    if not r.ok then fails (http_failure r.status r.text) else verdict_of r.json
