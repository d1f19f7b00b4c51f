-- ===== src/Download/Work/Laws.antt =====
-- The variables of the retry loop (src/clientDownload.ts) against its native downloads.
use react_native_pushy.Common.{ℕ, String, Bool, true, false, not, ◌&&◌, ◌||◌}
use react_native_pushy.Common.{Option, none, some, List, [], ◌∷◌, if◌then◌else◌, ◌≡◌, refl, arith}
use react_native_pushy.Common.{All}
use react_native_pushy.Events.{UpdateErrorCode, download_failed}
use react_native_pushy.Errors.{Thrown, ReadErrorCode, read_error_code, or_code}
use react_native_pushy.Flow.Plan.{DownloadStrategyType, DownloadAttempt, is_mirror_retryable_code}
use react_native_pushy.Download.Work.Induction.{retry-Keeps}
use react_native_pushy.Download.Work.{
  same_strategy, Call, Platform, Work, start_work, has_strategy, set_message, catch_failure,
  after_download, stops, reset, retry, is_some, is_patch_stage,
}

-- Whether a call failed at the patch stage.
abbrev pub is_patch_failure : Option ReadErrorCode → Bool
is_patch_failure none = false
is_patch_failure (some read) = is_patch_stage (or_code read.code download_failed)

abbrev pub is_ok : Option ReadErrorCode → Bool
is_ok none = true
is_ok (some read) = false

unfoldable pub patch_failed_for : DownloadStrategyType → List Call → Bool
patch_failed_for strategy [] = false
patch_failed_for strategy (c ∷ older) =
    (same_strategy c.strategy strategy && is_patch_failure c.failure)
    || patch_failed_for strategy older

-- The strategy of the download that succeeded.
unfoldable pub succeeded_of : List Call → Option DownloadStrategyType
succeeded_of [] = none
succeeded_of (c ∷ older) = if is_ok c.failure then some c.strategy else succeeded_of older

-- Nothing is downloaded after a success, and nothing by a strategy after its artifact did not apply.
unfoldable pub is_orderly : List Call → Bool
is_orderly [] = true
is_orderly (c ∷ older) =
    not (is_some (succeeded_of older))
    && not (patch_failed_for c.strategy older)
    && is_orderly older

-- The variables of the loop say what the calls did.
abbrev pub IsTold : Work → Type 0
IsTold w =
    (is_orderly w.calls ≡ true)
    × (w.succeeded ≡ succeeded_of w.calls)
    × ((strategy : DownloadStrategyType)
        → has_strategy strategy w.exhausted ≡ patch_failed_for strategy w.calls)

has_strategy-set_message :
    (t strategy : DownloadStrategyType) (message : String)
    (xs : List (DownloadStrategyType × String))
    → has_strategy t (set_message strategy message xs)
      ≡ (has_strategy t xs || same_strategy strategy t)
unfolding has_strategy set_message
has_strategy-set_message t strategy message [] = ground arith
has_strategy-set_message t strategy message ((s, m) ∷ xs) =
    ground (arith, has_strategy-set_message t strategy message xs)

fresh-is_orderly :
    (strategy : DownloadStrategyType) (w : Work)
    → stops strategy w ≡ false
    → IsTold w
    → (not (is_some (succeeded_of w.calls))
        && not (patch_failed_for strategy w.calls)
        && is_orderly w.calls)
      ≡ true
fresh-is_orderly strategy w going (orderly, same, told) =
    rw (← same) (ground (arith, told strategy))

exhausted-catch_failure :
    (strategy : DownloadStrategyType) (code : UpdateErrorCode) (message : String)
    (t : DownloadStrategyType) (w : Work)
    → has_strategy t w.exhausted ≡ patch_failed_for t w.calls
    → has_strategy t
        (if is_patch_stage code then set_message strategy message w.exhausted else w.exhausted)
      ≡ (same_strategy strategy t && is_patch_stage code || patch_failed_for t w.calls)
exhausted-catch_failure strategy code message t w told =
    ground (arith, has_strategy-set_message t strategy message w.exhausted)

after_download-IsTold :
    (platform : Platform) (strategy : DownloadStrategyType) (ordered : List String) (url : String)
    (outcome : Option Thrown) (w : Work)
    → stops strategy w ≡ false
    → IsTold w
    → IsTold (after_download platform strategy ordered url outcome w)
unfolding after_download catch_failure is_orderly succeeded_of patch_failed_for
    is_mirror_retryable_code
after_download-IsTold platform strategy ordered url none w going (orderly, same, told) =
    (fresh-is_orderly strategy w going (orderly, same, told), refl, λ t. ground (arith, told t))
after_download-IsTold platform strategy ordered url (some thrown) w going (orderly, same, told) = (
  fresh-is_orderly strategy w going (orderly, same, told),
  same,
  λ t.
      exhausted-catch_failure strategy (or_code (read_error_code thrown).code download_failed) _ t w
        (told t),
)

reset-IsTold : (w : Work) → is_some w.succeeded ≡ false → IsTold w → IsTold (reset w)
unfolding reset
reset-IsTold w failed (orderly, same, told) = (orderly, ground arith, told)

abbrev pub IsAny : DownloadAttempt → Type 0
IsAny attempt = Unit

pub All-IsAny : (attempts : List DownloadAttempt) → All IsAny attempts
All-IsAny [] = tt
All-IsAny (a ∷ attempts) = (tt, All-IsAny attempts)

-- However the native downloads end, the loop downloads nothing after a success and nothing by a
-- strategy after its artifact did not apply; it has succeeded with the strategy of the download that
-- did, and it has given up exactly the strategies whose artifact did not apply.
pub retry-IsTold :
    (platform : Platform) (attempts : List DownloadAttempt) (retries : ℕ)
    → IsTold (retry platform attempts retries start_work)
unfolding start_work is_orderly succeeded_of patch_failed_for has_strategy
retry-IsTold platform attempts retries =
    retry-Keeps IsTold IsAny platform (after_download-IsTold platform) (λ attempt w q h. h)
      (λ w h. h) reset-IsTold attempts retries start_work (All-IsAny attempts)
      (refl, refl, λ strategy. refl)
