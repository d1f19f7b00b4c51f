-- ===== src/Download/Tests.antt =====
-- The theorems on src/clientDownload.ts at concrete values, and runs of it.
use react_native_pushy.Common.{ℕ, String, true, false, Option, none, some, [], ◌∷◌, ◌≡◌, refl, map}
use react_native_pushy.Common.Int.{pos}
use react_native_pushy.Json.{undef}
use react_native_pushy.Errors.{
  Thrown, an_error, read_error_code, as_update_error_code, coded_message, raw_of, code_of,
}
use react_native_pushy.Flow.Plan.{
  DownloadStrategyType, diff, full, DownloadPlan, UpdateInfo, DownloadIdentity, decide_download,
  download, attempts_of, is_mirror_retryable_code,
}
use react_native_pushy.Flow.Urls.{join_urls, join_url, strip_slashes, has_scheme}
use react_native_pushy.Download.Mirrors.{
  starts_with, rank_download_urls, push_urls, test_urls, is_plain_http,
}
use react_native_pushy.Download.Mirrors.Laws.{test_urls-https, ping_of}
use react_native_pushy.Download.Work.{Platform, start_work, retry, is_some}
use react_native_pushy.Download.Work.Laws.{IsTold, retry-IsTold, succeeded_of}
use react_native_pushy.Download.Work.Progress.{IsSettled, retry-start_work-IsSettled}
use react_native_pushy.Download.Perform.{max_retries, perform_download}
use react_native_pushy.Download.Perform.Laws.{calls_of, latest_code, rejected-perform_download}

abbrev refused : Thrown
refused = an_error (record { message = "[PATCH_FAILED] crc"; code = undef; frozen = false })

abbrev only_full : ℕ → DownloadStrategyType → String → Option Thrown
only_full n full url = none
only_full n _ url = some refused

abbrev never : ℕ → DownloadStrategyType → String → Option Thrown
never n strategy url = some refused

abbrev platform_with : (ℕ → DownloadStrategyType → String → Option Thrown) → Platform
platform_with run = record {
  download = run;
  winner = λ strategy. some "https://b/x";
  error_text = λ strategy message. message;
  show = λ thrown. "error";
  to_text = λ value. "value";
}

abbrev none_thrown : Option Thrown
none_thrown = none

abbrev info : UpdateInfo
info = record {
  update = true;
  hash = "v2";
  diff = "d";
  pdiff = "";
  full = "f";
  paths = "a" ∷ "b" ∷ [];
}

abbrev identity : DownloadIdentity
identity = record { current_version = some "v1"; rolled_back_version = none }

abbrev plan : DownloadPlan
plan = record {
  hash = "v2";
  attempts =
      record { strategy = diff; urls = "https://a/d" ∷ "https://b/d" ∷ [] }
      ∷ record { strategy = full; urls = "https://a/f" ∷ "https://b/f" ∷ [] }
      ∷ [];
  dev_noop = false;
}

decide_download_runs : decide_download info identity false ≡ download plan
unfolding decide_download attempts_of join_urls join_url strip_slashes has_scheme
decide_download_runs = refl

only_full_runs : succeeded_of (calls_of (platform_with only_full) none plan) ≡ some full
unfolding retry succeeded_of max_retries start_work rank_download_urls push_urls
    is_mirror_retryable_code read_error_code as_update_error_code coded_message raw_of code_of
only_full_runs = refl

never_runs : succeeded_of (calls_of (platform_with never) (some (pos 1)) plan) ≡ none
unfolding retry succeeded_of max_retries start_work rank_download_urls push_urls
    is_mirror_retryable_code read_error_code as_update_error_code coded_message raw_of code_of
never_runs = refl

https_runs : (starts_with "https:" "https://a" ≡ true) × (starts_with "https:" "https://b" ≡ true)
unfolding starts_with
https_runs = (refl, refl)

schemes_run :
    (has_scheme "https://a/d" ≡ true)
    × (has_scheme "https://b/d" ≡ true)
    × (has_scheme "https://a/f" ≡ true)
    × (has_scheme "https://b/f" ≡ true)
unfolding has_scheme
schemes_run = (refl, refl, refl, refl)

test_urls-https_example :
    is_plain_http (
      test_urls ("https://a" ∷ "https://b" ∷ []) (
        map ping_of (
          ("https://b", some (record { status = 200; url = "http://b" }))
          ∷ ("https://a", none)
          ∷ [])))
    ≡ false
test_urls-https_example =
    test_urls-https "https://a" ("https://b" ∷ [])
      (("https://b", some (record { status = 200; url = "http://b" })) ∷ ("https://a", none) ∷ [])
      https_runs.0 (https_runs.1, (https_runs.0, tt))

retry-IsTold_example : IsTold (retry (platform_with only_full) plan.attempts 3 start_work)
retry-IsTold_example = retry-IsTold (platform_with only_full) plan.attempts 3

retry-start_work-IsSettled_example :
    IsSettled (retry (platform_with never) plan.attempts 3 start_work)
retry-start_work-IsSettled_example =
    retry-start_work-IsSettled (platform_with never) plan.attempts 3 refl (
      (refl, (schemes_run.0, (schemes_run.1, tt))),
      ((refl, (schemes_run.2, (schemes_run.3, tt))), tt),
    )

rejected-perform_download_example :
    ((perform_download (platform_with never) (some (pos 1)) none plan none).rejected
      ≡ latest_code (calls_of (platform_with never) (some (pos 1)) plan))
    × (is_some (latest_code (calls_of (platform_with never) (some (pos 1)) plan)) ≡ true)
rejected-perform_download_example =
    rejected-perform_download (platform_with never) (some (pos 1)) none info identity false plan
      none decide_download_runs refl never_runs
