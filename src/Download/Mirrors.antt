-- ===== src/Download/Mirrors.antt =====
-- The ranking of mirrors: isProtocolDowngrade, ping, promiseAny and testUrls (src/utils.ts) and
-- rankDownloadUrls (src/clientDownload.ts).
pub mod Laws
use Prim.Native.String
use react_native_pushy.Common.{ℕ, suc, ◌+◌, Char, code, String, Bool, true, false, ◌&&◌, ◌||◌, ◌==◌}
use react_native_pushy.Common.{
  Option, none, some, List, [], ◌∷◌, ◌++◌, length, contains, beq, leb, if◌then◌else◌,
}

-- The code of a letter in lower case; any other code as it is.
abbrev pub lower : ℕ → ℕ
lower c = if leb b'A' c && leb c b'Z' then c + 32 else c

-- `/^prefix/i`, for a prefix in lower case.
unfoldable pub starts_with : String → String → Bool
starts_with String.[] s = true
starts_with (String.◌∷◌ p ps) String.[] = false
starts_with (String.◌∷◌ p ps) (String.◌∷◌ c s) = beq (code p) (lower (code c)) && starts_with ps s

abbrev pub is_plain_http : Option String → Bool
is_plain_http none = false
is_plain_http (some url) = starts_with "http:" url

unfoldable pub is_protocol_downgrade : String → Option String → Bool
unfolding starts_with
is_protocol_downgrade requested_url final_url =
    starts_with "https:" requested_url && is_plain_http final_url

-- The answer to a HEAD request; a request that fails has none.
pub record HeadResponse : Type 0 where
  pub status : ℕ
  pub url : String

unfoldable pub ping : String → Option HeadResponse → Option String
ping url none = none
ping url (some response) =
    if beq response.status 200
    then (if is_protocol_downgrade url (some response.url) then none else some response.url)
    else none

-- What a promise has come to.
pub data Settled (A : Type 0) : Type 0 where
  pending rejected : Settled A
  resolved : A → Settled A

-- `promiseAny` of so many promises, after these have settled, in their order; `count` have been
-- rejected before.
unfoldable pub any_from : {A : Type 0} → ℕ → ℕ → List (Option A) → Settled A
any_from total count [] = pending
any_from total count (some value ∷ settled) = resolved value
any_from total count (none ∷ settled) =
    let later = any_from total (suc count) settled in
    if beq (suc count) total then rejected else later

unfoldable pub promise_any : {A : Type 0} → ℕ → List (Option A) → Settled A
unfolding any_from
promise_any total settled = if beq total 0 then rejected else any_from total 0 settled

-- `testUrls`, with the pings in the order in which they settle; none while it waits.
unfoldable pub winner_of : String → Settled String → Option String
winner_of first pending = none
winner_of first rejected = some first
winner_of first (resolved url) = some (if url == "" then first else url)

unfoldable pub test_urls : List String → List (Option String) → Option String
test_urls [] settled = none
test_urls (url ∷ urls) settled = winner_of url (promise_any (length (url ∷ urls)) settled)

abbrev pub falsy_text : Option String → String
falsy_text none = ""
falsy_text (some url) = url

-- `push` of rankDownloadUrls.
abbrev pub push_url : List String → Option String → List String
push_url ordered url =
    if falsy_text url == "" || contains (falsy_text url) ordered
    then ordered
    else ordered ++ falsy_text url ∷ []

unfoldable pub push_urls : List String → List String → List String
push_urls ordered [] = ordered
push_urls ordered (url ∷ urls) = push_urls (push_url ordered (some url)) urls

-- `rankDownloadUrls`, with the winner of the race.
unfoldable pub rank_download_urls : Option String → List String → List String
rank_download_urls winner [] = []
rank_download_urls winner (url ∷ urls) = push_urls (push_url [] winner) (url ∷ urls)
