-- ===== src/Download/Perform.antt =====
-- performDownload (src/clientDownload.ts): the loop, and what is reported and committed after it.
pub mod Laws
pub mod Fallback
use react_native_pushy.Common.{ℕ, String, Bool, true, false, not, ◌&&◌, ◌||◌, if◌then◌else◌}
use react_native_pushy.Common.{Option, none, some, List, [], ◌∷◌, ◌++◌, map, ◌==◌}
use react_native_pushy.Common.Int.{ℤ, pos, negsuc}
use react_native_pushy.Common.Text.{text_append}
use react_native_pushy.Events.{
  UpdateErrorCode, patch_failed, download_failed, file_operation_failed,
}
use react_native_pushy.Errors.{Thrown, or_code, to_update_error}
use react_native_pushy.Flow.Plan.{DownloadStrategyType, DownloadPlan}
use react_native_pushy.Download.Work.{
  Platform, LastError, Work, start_work, retry, is_some, message_of_pair,
}

-- `Math.max(0, Math.floor(maxRetries ?? 3))`, for an option that is an integer.
unfoldable pub max_retries : Option ℤ → ℕ
max_retries none = 3
max_retries (some (pos n)) = n
max_retries (some (negsuc n)) = 0

-- `messages.join(';')`.
unfoldable pub join : List String → String
join [] = ""
join (m ∷ []) = m
join (m ∷ ms) = text_append m (text_append ";" (join ms))

-- What a download reports once its loop is over.
pub data DownloadReport : Type 0 where
  download_fallback : Option UpdateErrorCode → DownloadStrategyType → String → DownloadReport
  error_update : UpdateErrorCode → String → DownloadReport
  download_success : DownloadStrategyType → Option String → DownloadReport

-- The reports, in order; whether the native hash info was written, with its `debugChannel`; and
-- the hash that the promise resolves to, which is the new `downloadedHash`, or the code of the error
-- it rejects with.
pub record Performed : Type 0 where
  pub reports : List DownloadReport
  pub hash_info : Option Bool
  pub downloaded_hash : Option String
  pub rejected : Option UpdateErrorCode

abbrev pub code_of_error : Option LastError → Option UpdateErrorCode
code_of_error none = none
code_of_error (some e) = some e.code

abbrev pub has_no_items : {A : Type 0} → List A → Bool
has_no_items [] = true
has_no_items (x ∷ xs) = false

unfoldable pub fallback_report : DownloadStrategyType → Work → List DownloadReport
unfolding join
fallback_report strategy w =
    let patch_messages = map message_of_pair w.exhausted in
    let patch_was = not (has_no_items patch_messages) in
    if has_no_items w.error_messages
    then []
    else download_fallback (if patch_was then some patch_failed else code_of_error w.last_error)
        strategy (join (if patch_was then patch_messages else w.error_messages))
      ∷ []

abbrev pub is_debug : Option String → String → Bool
is_debug none hash = false
is_debug (some to_hash) hash = to_hash == hash

-- `setLocalHashInfo`, then the commit.
unfoldable pub persist :
    Platform → String → Option String → Option Thrown → List DownloadReport → Performed
persist platform hash to_hash none reports = record {
  reports = reports;
  hash_info = some (is_debug to_hash hash);
  downloaded_hash = some hash;
  rejected = none;
}
persist platform hash to_hash (some thrown) reports =
    let error = to_update_error platform.to_text thrown file_operation_failed in
    record {
      reports = reports ++ error_update error.code error.message ∷ [];
      hash_info = some (is_debug to_hash hash);
      downloaded_hash = none;
      rejected = some error.code;
    }

abbrev pub joined_error : List String → Option String
unfolding join
joined_error [] = none
joined_error (m ∷ ms) = some (join (m ∷ ms))

unfoldable pub conclude :
    Platform
    → String
    → Option String
    → Option Thrown
    → Work
    → Option DownloadStrategyType
    → Performed
unfolding fallback_report persist join
conclude platform hash to_hash outcome w none =
    let code = or_code (code_of_error w.last_error) download_failed in
    record {
      reports = error_update code (join w.error_messages) ∷ [];
      hash_info = none;
      downloaded_hash = none;
      rejected = some code;
    }
conclude platform hash to_hash outcome w (some strategy) =
    persist platform hash to_hash outcome
      (fallback_report strategy w ++ download_success strategy (joined_error w.error_messages) ∷ [])

-- `performDownload`; the development no-op delivers nothing. The last argument is the outcome of
-- writing the hash info.
unfoldable pub perform_download :
    Platform → Option ℤ → Option String → DownloadPlan → Option Thrown → Performed
unfolding conclude
perform_download platform retries to_hash plan outcome =
    let w = retry platform plan.attempts (max_retries retries) start_work in
    if plan.dev_noop
    then record { reports = []; hash_info = none; downloaded_hash = none; rejected = none }
    else conclude platform plan.hash to_hash outcome w w.succeeded
