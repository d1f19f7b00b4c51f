-- ===== src/Download/Perform/Laws.antt =====
-- What performDownload (src/clientDownload.ts) delivers and rejects with.
use react_native_pushy.Common.{
  ℕ, String, Bool, true, false, not, ◌&&◌, ◌||◌, if◌then◌else◌, Bool-cases, inl, inr,
}
use react_native_pushy.Common.{Option, none, some, List, [], ◌∷◌, ◌≡◌, refl, arith, sym, ◌⊎◌, ◌∙◌}
use react_native_pushy.Common.Int.{ℤ}
use react_native_pushy.Events.{UpdateErrorCode, download_failed}
use react_native_pushy.Errors.{Thrown, ReadErrorCode, or_code}
use react_native_pushy.Flow.Plan.{
  DownloadStrategyType, DownloadPlan, decide_download, UpdateInfo, DownloadIdentity, download,
  DownloadAttempt,
}
use react_native_pushy.Flow.Plan.Laws.{decide_download-attempts, decide_download-dev_noop}
use react_native_pushy.Download.Work.{
  Platform, LastError, Work, start_work, retry, is_some, Call, stops, after_download, catch_failure,
  reset,
}
use react_native_pushy.Download.Work.Laws.{succeeded_of, retry-IsTold, IsAny, All-IsAny}
use react_native_pushy.Download.Work.Induction.{retry-Keeps}
use react_native_pushy.Download.Work.Progress.{retry-start_work-IsSettled}
use react_native_pushy.Download.Perform.{
  max_retries, code_of_error, persist, conclude, perform_download,
}

abbrev pub calls_of : Platform → Option ℤ → DownloadPlan → List Call
calls_of platform retries plan =
    (retry platform plan.attempts (max_retries retries) start_work).calls

downloaded_hash-conclude :
    (platform : Platform) (hash : String) (to_hash : Option String) (outcome : Option Thrown)
    (w : Work) (succeeded : Option DownloadStrategyType)
    → (conclude platform hash to_hash outcome w succeeded).downloaded_hash
      ≡ (if is_some succeeded && not (is_some outcome) then some hash else none)
unfolding conclude persist
downloaded_hash-conclude platform hash to_hash outcome w none = refl
downloaded_hash-conclude platform hash to_hash none w (some s) = refl
downloaded_hash-conclude platform hash to_hash (some thrown) w (some s) = refl

-- A version counts as downloaded exactly if a native download of it succeeded and its hash info was
-- written; the no-op of a development build delivers nothing.
downloaded_hash-perform_download :
    (platform : Platform) (retries : Option ℤ) (to_hash : Option String) (plan : DownloadPlan)
    (outcome : Option Thrown)
    → (perform_download platform retries to_hash plan outcome).downloaded_hash ≡ (
        if not plan.dev_noop
          && is_some (succeeded_of (calls_of platform retries plan))
          && not (is_some outcome)
        then some plan.hash
        else none)
unfolding perform_download
downloaded_hash-perform_download platform retries to_hash plan outcome =
    let w = retry platform plan.attempts (max_retries retries) start_work in
    elim (Bool-cases plan.dev_noop) [
      | inl e ↦ simp e refl
      | inr e ↦
          simp (e, ← (retry-IsTold platform plan.attempts (max_retries retries)).1)
            (downloaded_hash-conclude platform plan.hash to_hash outcome w w.succeeded)
    ]

-- The code that the latest native download failed with.
abbrev pub failure_code : Option ReadErrorCode → Option UpdateErrorCode
failure_code none = none
failure_code (some read) = some (or_code read.code download_failed)

unfoldable pub latest_code : List Call → Option UpdateErrorCode
latest_code [] = none
latest_code (c ∷ older) = failure_code c.failure

abbrev pub IsLatest : Work → Type 0
IsLatest w =
    (is_some w.succeeded ≡ true)
    ⊎ ((w.last_error ≡ none) ⊎ (code_of_error w.last_error ≡ latest_code w.calls))

after_download-IsLatest :
    (platform : Platform) (strategy : DownloadStrategyType) (ordered : List String) (url : String)
    (outcome : Option Thrown) (w : Work)
    → stops strategy w ≡ false
    → IsLatest w
    → IsLatest (after_download platform strategy ordered url outcome w)
unfolding after_download catch_failure latest_code
after_download-IsLatest platform strategy ordered url none w going h = inl refl
after_download-IsLatest platform strategy ordered url (some thrown) w going h = inr (inr refl)

reset-IsLatest : (w : Work) → is_some w.succeeded ≡ false → IsLatest w → IsLatest (reset w)
unfolding reset
reset-IsLatest w failed h = inr (inl refl)

retry-IsLatest :
    (platform : Platform) (attempts : List DownloadAttempt) (retries : ℕ)
    → IsLatest (retry platform attempts retries start_work)
unfolding start_work
retry-IsLatest platform attempts retries =
    retry-Keeps IsLatest IsAny platform (after_download-IsLatest platform) (λ attempt w q h. h)
      (λ w h. h) reset-IsLatest attempts retries start_work (All-IsAny attempts) (inr (inl refl))

last_error_lem :
    (succeeded : Option DownloadStrategyType) (e : Option LastError) (c : Option UpdateErrorCode)
    → is_some succeeded ≡ false
    → (is_some succeeded || is_some e) ≡ true
    → (is_some succeeded ≡ true) ⊎ ((e ≡ none) ⊎ (code_of_error e ≡ c))
    → (some (or_code (code_of_error e) download_failed) ≡ c) × (is_some c ≡ true)
last_error_lem s none c failed settled latest = ground arith
last_error_lem s (some e) c failed settled (inl q) = ground arith
last_error_lem s (some e) c failed settled (inr (inl q)) = ground arith
last_error_lem s (some e) c failed settled (inr (inr q)) = (q, rw (sym q) refl)

-- A decided download that is no development no-op and in which no native download succeeded rejects
-- with the code of the latest of them, of which there is one.
pub rejected-perform_download :
    (platform : Platform) (retries : Option ℤ) (to_hash : Option String) (info : UpdateInfo)
    (identity : DownloadIdentity) (is_dev : Bool) (plan : DownloadPlan) (outcome : Option Thrown)
    → decide_download info identity is_dev ≡ download plan
    → plan.dev_noop ≡ false
    → succeeded_of (calls_of platform retries plan) ≡ none
    → ((perform_download platform retries to_hash plan outcome).rejected
        ≡ latest_code (calls_of platform retries plan))
      × (is_some (latest_code (calls_of platform retries plan)) ≡ true)
unfolding perform_download conclude
rejected-perform_download platform retries to_hash info identity is_dev plan outcome decided active
      failed =
    let w = retry platform plan.attempts (max_retries retries) start_work in
    let none_left : w.succeeded ≡ none =
      (retry-IsTold platform plan.attempts (max_retries retries)).1 ∙ failed in
    simp (active, none_left)
      (last_error_lem w.succeeded w.last_error (latest_code w.calls) (rw none_left refl)
        (retry-start_work-IsSettled platform plan.attempts (max_retries retries)
          (sym (decide_download-dev_noop info identity is_dev decided) ∙ active)
          (decide_download-attempts info identity is_dev decided).1)
        (retry-IsLatest platform plan.attempts (max_retries retries)))
