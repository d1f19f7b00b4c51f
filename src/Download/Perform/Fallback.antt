-- ===== src/Download/Perform/Fallback.antt =====
-- The fallback report of performDownload (src/clientDownload.ts).
use react_native_pushy.Common.{
  ℕ, String, Bool, true, false, not, ◌||◌, if◌then◌else◌, Bool-cases, inl, inr,
}
use react_native_pushy.Common.{Option, none, some, List, [], ◌∷◌, ◌++◌, map, ◌≡◌, refl, arith, ◌∙◌}
use react_native_pushy.Common.Int.{ℤ}
use react_native_pushy.Events.{UpdateErrorCode, patch_failed, download_failed}
use react_native_pushy.Errors.{Thrown, read_error_code, or_code}
use react_native_pushy.Flow.Plan.{
  DownloadStrategyType, diff, pdiff, full, DownloadAttempt, DownloadPlan, is_mirror_retryable_code,
}
use react_native_pushy.Download.Work.{
  Platform, LastError, Work, start_work, retry, is_some, message_of_pair, Call, stops,
  after_download, catch_failure, reset, has_strategy, set_message, is_patch_stage,
}
use react_native_pushy.Download.Work.Laws.{
  succeeded_of, patch_failed_for, retry-IsTold, IsAny, All-IsAny,
}
use react_native_pushy.Download.Work.Induction.{retry-Keeps}
use react_native_pushy.Download.Perform.{
  max_retries, join, DownloadReport, download_fallback, code_of_error, has_no_items,
  fallback_report, persist, conclude, perform_download,
}
use react_native_pushy.Download.Perform.Laws.{calls_of}

abbrev pub is_patch_code : Option UpdateErrorCode → Bool
is_patch_code none = false
is_patch_code (some code) = is_patch_stage code

abbrev pub is_patch_report : DownloadReport → Bool
is_patch_report (download_fallback code strategy message) = is_patch_code code
is_patch_report _ = false

unfoldable pub reports_patch : List DownloadReport → Bool
reports_patch [] = false
reports_patch (r ∷ reports) = is_patch_report r || reports_patch reports

abbrev pub any_patch_failed : List Call → Bool
any_patch_failed calls =
    patch_failed_for diff calls || patch_failed_for pdiff calls || patch_failed_for full calls

-- The messages of the given up strategies are among the messages, and an error at the patch stage
-- gave its strategy up.
abbrev pub IsCounted : Work → Type 0
IsCounted w =
    ((has_no_items w.exhausted || not (has_no_items w.error_messages)) ≡ true)
    × ((not (is_patch_code (code_of_error w.last_error)) || not (has_no_items w.exhausted)) ≡ true)

has_no_items-append : (xs : List String) (x : String) → has_no_items (xs ++ x ∷ []) ≡ false
has_no_items-append [] x = refl
has_no_items-append (y ∷ xs) x = refl

has_no_items-set_message :
    (s : DownloadStrategyType) (m : String) (xs : List (DownloadStrategyType × String))
    → has_no_items (set_message s m xs) ≡ false
unfolding set_message
has_no_items-set_message s m [] = refl
has_no_items-set_message s m ((t, n) ∷ xs) = ground arith

has_no_items-map :
    (xs : List (DownloadStrategyType × String))
    → has_no_items (map message_of_pair xs) ≡ has_no_items xs
has_no_items-map [] = refl
has_no_items-map (x ∷ xs) = refl

has_no_items-exhausted :
    (xs : List (DownloadStrategyType × String))
    → not (has_no_items xs)
      ≡ (has_strategy diff xs || has_strategy pdiff xs || has_strategy full xs)
unfolding has_strategy
has_no_items-exhausted [] = refl
has_no_items-exhausted ((diff, m) ∷ xs) = ground arith
has_no_items-exhausted ((pdiff, m) ∷ xs) = ground arith
has_no_items-exhausted ((full, m) ∷ xs) = ground arith

or_true : (b : Bool) → (b || true) ≡ true
or_true true = refl
or_true false = refl

or_false : (b : Bool) → (b || false) ≡ b
or_false true = refl
or_false false = refl

or_not : (b : Bool) → (b || not b) ≡ true
or_not true = refl
or_not false = refl

counted-set_message :
    (strategy : DownloadStrategyType) (code : UpdateErrorCode) (message : String)
    (xs : List (DownloadStrategyType × String))
    → (not (is_patch_stage code)
        || not (has_no_items (if is_patch_stage code then set_message strategy message xs else xs)))
      ≡ true
counted-set_message strategy code message xs = elim (Bool-cases (is_patch_stage code)) [
  | inl e ↦ rw (e, has_no_items-set_message strategy message xs) refl
  | inr e ↦ rw e refl
]

after_download-IsCounted :
    (platform : Platform) (strategy : DownloadStrategyType) (ordered : List String) (url : String)
    (outcome : Option Thrown) (w : Work)
    → stops strategy w ≡ false
    → IsCounted w
    → IsCounted (after_download platform strategy ordered url outcome w)
unfolding after_download catch_failure
after_download-IsCounted platform strategy ordered url none w going h = h
after_download-IsCounted platform strategy ordered url (some thrown) w going (a, b) = (
  rw has_no_items-append (or_true _),
  counted-set_message strategy (or_code (read_error_code thrown).code download_failed) _
      w.exhausted,
)

reset-IsCounted : (w : Work) → is_some w.succeeded ≡ false → IsCounted w → IsCounted (reset w)
unfolding reset
reset-IsCounted w failed h = (rw has_no_items-map (or_not (has_no_items w.exhausted)), refl)

retry-IsCounted :
    (platform : Platform) (attempts : List DownloadAttempt) (retries : ℕ)
    → IsCounted (retry platform attempts retries start_work)
unfolding start_work
retry-IsCounted platform attempts retries =
    retry-Keeps IsCounted IsAny platform (after_download-IsCounted platform) (λ attempt w q h. h)
      (λ w h. h) reset-IsCounted attempts retries start_work (All-IsAny attempts) (refl, refl)

reports_patch-append :
    (xs ys : List DownloadReport)
    → reports_patch (xs ++ ys) ≡ (reports_patch xs || reports_patch ys)
unfolding reports_patch
reports_patch-append [] ys = refl
reports_patch-append (x ∷ xs) ys = ground (arith, reports_patch-append xs ys)

reports_patch-message :
    (strategy : DownloadStrategyType) (exhausted : List (DownloadStrategyType × String))
    (messages : List String) (e : Option LastError)
    → (has_no_items exhausted || not (has_no_items messages)) ≡ true
    → (not (is_patch_code (code_of_error e)) || not (has_no_items exhausted)) ≡ true
    → reports_patch (
        if has_no_items messages
        then []
        else download_fallback
            (if not (has_no_items (map message_of_pair exhausted))
              then some patch_failed
              else code_of_error e)
            strategy
            (join (
              if not (has_no_items (map message_of_pair exhausted))
              then map message_of_pair exhausted
              else messages))
          ∷ [])
      ≡ not (has_no_items exhausted)
unfolding reports_patch is_mirror_retryable_code
reports_patch-message strategy [] [] e a b = refl
reports_patch-message strategy [] (m ∷ messages) e a b = ground arith
reports_patch-message strategy (x ∷ exhausted) [] e a b = ground arith
reports_patch-message strategy (x ∷ exhausted) (m ∷ messages) e a b = refl

reports_patch-fallback_report :
    (strategy : DownloadStrategyType) (w : Work)
    → IsCounted w
    → reports_patch (fallback_report strategy w) ≡ not (has_no_items w.exhausted)
unfolding fallback_report reports_patch
reports_patch-fallback_report strategy w (a, b) =
    reports_patch-message strategy w.exhausted w.error_messages w.last_error a b

reports_patch-persist :
    (platform : Platform) (hash : String) (to_hash : Option String) (outcome : Option Thrown)
    (reports : List DownloadReport)
    → reports_patch (persist platform hash to_hash outcome reports).reports ≡ reports_patch reports
unfolding persist reports_patch
reports_patch-persist platform hash to_hash none reports = refl
reports_patch-persist platform hash to_hash (some thrown) reports =
    rw reports_patch-append (or_false (reports_patch reports))

-- A download that succeeded reports a fallback with a patch failure exactly if one of its native
-- downloads failed at the patch stage, whatever else failed and in which order.
reports_patch-perform_download :
    (platform : Platform) (retries : Option ℤ) (to_hash : Option String) (plan : DownloadPlan)
    (outcome : Option Thrown) (strategy : DownloadStrategyType)
    → plan.dev_noop ≡ false
    → succeeded_of (calls_of platform retries plan) ≡ some strategy
    → reports_patch (perform_download platform retries to_hash plan outcome).reports
      ≡ any_patch_failed (calls_of platform retries plan)
unfolding perform_download conclude reports_patch
reports_patch-perform_download platform retries to_hash plan outcome strategy active succeeded =
    let w = retry platform plan.attempts (max_retries retries) start_work in
    let told = retry-IsTold platform plan.attempts (max_retries retries) in
    let counted = retry-IsCounted platform plan.attempts (max_retries retries) in
    let done : w.succeeded ≡ some strategy = told.1 ∙ succeeded in
    simp (active, done)
      (rw
        (
          reports_patch-persist,
          reports_patch-append,
          reports_patch-fallback_report strategy w counted,
          has_no_items-exhausted w.exhausted,
          told.2 diff,
          told.2 pdiff,
          told.2 full,
        )
        (or_false (any_patch_failed w.calls)))
