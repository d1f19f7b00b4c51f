-- ===== src/Download/Work.antt =====
-- The retry loop of performDownload (src/clientDownload.ts): attempts over strategies over mirrors.
pub mod Induction
pub mod Laws
mod Ranked
pub mod Progress
use react_native_pushy.Common.{ℕ, zero, suc, ◌+◌, String, Bool, true, false, not, ◌&&◌, ◌||◌, ◌==◌}
use react_native_pushy.Common.{Option, none, some, List, [], ◌∷◌, ◌++◌, length, map, if◌then◌else◌}
use react_native_pushy.Events.{UpdateErrorCode, code_text, download_failed}
use react_native_pushy.Errors.{Thrown, ReadErrorCode, read_error_code, or_code}
use react_native_pushy.Json.{Value}
use react_native_pushy.Flow.Plan.{
  DownloadStrategyType, diff, pdiff, full, DownloadAttempt, is_mirror_retryable_code,
}
use react_native_pushy.Download.Mirrors.{rank_download_urls}

abbrev pub same_strategy : DownloadStrategyType → DownloadStrategyType → Bool
same_strategy diff diff = true
same_strategy pdiff pdiff = true
same_strategy full full = true
same_strategy _ _ = false

-- One native download, with the failure read from what it threw.
pub record Call : Type 0 where
  pub strategy : DownloadStrategyType
  pub url : String
  pub failure : Option ReadErrorCode

-- What the loop asks of the platform: the outcome of each native download, by its number; the winner
-- of each race among mirrors; the wrapped message of a failure; `String(e ?? '')`, and the text of
-- a value that is no text.
pub record Platform : Type 0 where
  pub download : ℕ → DownloadStrategyType → String → Option Thrown
  pub winner : DownloadStrategyType → Option String
  pub error_text : DownloadStrategyType → String → String
  pub show : Thrown → String
  pub to_text : Value → String

pub record LastError : Type 0 where
  pub code : UpdateErrorCode
  pub message : String

-- The variables of the loop. `calls` are the native downloads so far, the latest first, and `attempt_count`
-- the attempts begun.
pub record Work : Type 0 where
  pub succeeded : Option DownloadStrategyType
  pub last_error : Option LastError
  pub error_messages : List String
  pub exhausted : List (DownloadStrategyType × String)
  pub ranked : List (DownloadStrategyType × List String)
  pub calls : List Call
  pub attempt_count : ℕ

unfoldable pub start_work : Work
start_work = record {
  succeeded = none;
  last_error = none;
  error_messages = [];
  exhausted = [];
  ranked = [];
  calls = [];
  attempt_count = 0;
}

-- `Map.has`, `Map.get` and `Map.set`.
unfoldable pub has_strategy : DownloadStrategyType → List (DownloadStrategyType × String) → Bool
has_strategy strategy [] = false
has_strategy strategy ((t, message) ∷ rest) = same_strategy t strategy || has_strategy strategy rest

unfoldable pub set_message :
    DownloadStrategyType
    → String
    → List (DownloadStrategyType × String)
    → List (DownloadStrategyType × String)
set_message strategy message [] = (strategy, message) ∷ []
set_message strategy message ((t, m) ∷ rest) =
    let later = set_message strategy message rest in
    if same_strategy t strategy then (t, message) ∷ rest else (t, m) ∷ later

unfoldable pub get_urls :
    DownloadStrategyType → List (DownloadStrategyType × List String) → Option (List String)
get_urls strategy [] = none
get_urls strategy ((t, urls) ∷ rest) =
    if same_strategy t strategy then some urls else get_urls strategy rest

unfoldable pub set_urls :
    DownloadStrategyType
    → List String
    → List (DownloadStrategyType × List String)
    → List (DownloadStrategyType × List String)
set_urls strategy urls [] = (strategy, urls) ∷ []
set_urls strategy urls ((t, us) ∷ rest) =
    let later = set_urls strategy urls rest in
    if same_strategy t strategy then (t, urls) ∷ rest else (t, us) ∷ later

abbrev pub is_some : {A : Type 0} → Option A → Bool
is_some none = false
is_some (some x) = true

abbrev pub text_of_code : Option UpdateErrorCode → Option String
text_of_code none = none
text_of_code (some c) = some (code_text c)

-- A head mirror that fails goes to the back for the next attempt.
unfoldable pub demote :
    DownloadStrategyType
    → List String
    → String
    → List (DownloadStrategyType × List String)
    → List (DownloadStrategyType × List String)
unfolding set_urls
demote strategy (first ∷ second ∷ others) url ranked =
    if url == first then set_urls strategy (second ∷ others ++ url ∷ []) ranked else ranked
demote strategy _ url ranked = ranked

abbrev pub or_message : String → String → String
or_message a b = if a == "" then b else a

abbrev pub is_patch_stage : UpdateErrorCode → Bool
is_patch_stage code = not (is_mirror_retryable_code (some (code_text code)))

-- The `catch` of one download.
unfoldable pub catch_failure :
    Platform → DownloadStrategyType → List String → String → Thrown → Work → Work
unfolding set_message demote
catch_failure platform strategy ordered url thrown w =
    let read = read_error_code thrown in
    let message = platform.error_text strategy (or_message read.message (platform.show thrown)) in
    let code = or_code read.code download_failed in
    record w {
      last_error = some (record { code = code; message = message });
      error_messages = w.error_messages ++ message ∷ [];
      exhausted =
          if is_patch_stage code then set_message strategy message w.exhausted else w.exhausted;
      ranked = demote strategy ordered url w.ranked;
      calls = record { strategy = strategy; url = url; failure = some read } ∷ w.calls;
    }

unfoldable pub after_download :
    Platform → DownloadStrategyType → List String → String → Option Thrown → Work → Work
unfolding catch_failure
after_download platform strategy ordered url none w = record w {
  succeeded = some strategy;
  calls = record { strategy = strategy; url = url; failure = none } ∷ w.calls;
}
after_download platform strategy ordered url (some thrown) w =
    catch_failure platform strategy ordered url thrown w

-- The two `break`s of the inner loop.
abbrev pub stops : DownloadStrategyType → Work → Bool
stops strategy w = is_some w.succeeded || has_strategy strategy w.exhausted

-- `for (const url of orderedUrls)`.
unfoldable pub try_urls : Platform → DownloadStrategyType → List String → List String → Work → Work
unfolding after_download
try_urls platform strategy ordered [] w = w
try_urls platform strategy ordered (url ∷ urls) w =
    let tried =
      after_download platform strategy ordered url (platform.download (length w.calls) strategy url)
        w in
    let later = try_urls platform strategy ordered urls tried in
    if stops strategy tried then tried else later

abbrev pub or_ranked : Option (List String) → List String → List String
or_ranked none fresh = fresh
or_ranked (some urls) fresh = urls

-- The ranking of an attempt, computed once.
unfoldable pub ranking : Platform → DownloadAttempt → Work → List String
unfolding get_urls
ranking platform attempt w =
    or_ranked (get_urls attempt.strategy w.ranked)
      (rank_download_urls (platform.winner attempt.strategy) attempt.urls)

unfoldable pub try_attempt : Platform → DownloadAttempt → Work → Work
unfolding try_urls ranking set_urls
try_attempt platform attempt w =
    let ordered = ranking platform attempt w in
    if stops attempt.strategy w
    then w
    else try_urls platform attempt.strategy ordered ordered
        (record w { ranked = set_urls attempt.strategy ordered w.ranked })

-- `for (const { type, urls } of attempts)`.
unfoldable pub try_attempts : Platform → List DownloadAttempt → Work → Work
unfolding try_attempt
try_attempts platform [] w = w
try_attempts platform (attempt ∷ attempts) w =
    try_attempts platform attempts (try_attempt platform attempt w)

unfoldable pub all_exhausted : List DownloadAttempt → Work → Bool
unfolding has_strategy
all_exhausted [] w = true
all_exhausted (attempt ∷ attempts) w =
    has_strategy attempt.strategy w.exhausted && all_exhausted attempts w

abbrev pub message_of_pair : DownloadStrategyType × String → String
message_of_pair p = p.1

-- What a retry resets.
unfoldable pub reset : Work → Work
reset w = record w {
  succeeded = none;
  last_error = none;
  error_messages = map message_of_pair w.exhausted;
}

unfoldable pub round : Platform → List DownloadAttempt → Work → Work
unfolding try_attempts
round platform attempts w =
    try_attempts platform attempts (record w { attempt_count = w.attempt_count + 1 })

-- The loop, with so many retries left.
unfoldable pub retry : Platform → List DownloadAttempt → ℕ → Work → Work
unfolding round all_exhausted reset
retry platform attempts zero w = round platform attempts w
retry platform attempts (suc n) w =
    let done = round platform attempts w in
    let later = retry platform attempts n (reset done) in
    if is_some done.succeeded || all_exhausted attempts done then done else later
