-- ===== src/Flow/Plan.antt =====
-- shouldActivateAfterDownload, isMirrorRetryableCode and decideDownload (src/updateFlowCore.ts).
pub mod Laws
use react_native_pushy.Common.{String, Bool, true, false, not, ◌&&◌, ◌||◌, ◌==◌, if◌then◌else◌}
use react_native_pushy.Common.{Option, none, some, List, [], ◌∷◌, ◌++◌}
use react_native_pushy.Json.{Value, str, arr, Items, no_items, item, Fields, get, member, truthy}
use react_native_pushy.Flow.Urls.{join_urls}

unfoldable pub is_mirror_retryable_code : Option String → Bool
is_mirror_retryable_code none = true
is_mirror_retryable_code (some code) = not (code == "PATCH_FAILED")

unfoldable pub should_activate_after_download : Fields → Option String → Bool
should_activate_after_download info none = truthy (member "forceBoot" (get "config" info))
should_activate_after_download info (some after_download) =
    after_download == "setNeedUpdate" || truthy (member "forceBoot" (get "config" info))

-- The members of a check result that the decision reads. A text that the server omits or sends as
-- null is "": the code only asks whether it is falsy.
pub record UpdateInfo : Type 0 where
  pub update : Bool
  pub hash : String
  pub diff : String
  pub pdiff : String
  pub full : String
  pub paths : List String

abbrev pub text_of : Value → String
text_of (str s) = s
text_of _ = ""

abbrev pub texts : Items → List String
texts no_items = []
texts (item v vs) = text_of v ∷ texts vs

abbrev pub paths_of : Value → List String
paths_of (arr vs) = texts vs
paths_of _ = []

unfoldable pub read_update_info : Fields → UpdateInfo
read_update_info info = record {
  update = truthy (get "update" info);
  hash = text_of (get "hash" info);
  diff = text_of (get "diff" info);
  pdiff = text_of (get "pdiff" info);
  full = text_of (get "full" info);
  paths = paths_of (get "paths" info);
}

pub data DownloadStrategyType : Type 0 where
  diff pdiff full : DownloadStrategyType

pub record DownloadAttempt : Type 0 where
  pub strategy : DownloadStrategyType
  pub urls : List String

pub record DownloadPlan : Type 0 where
  pub hash : String
  pub attempts : List DownloadAttempt
  pub dev_noop : Bool

pub data Reason : Type 0 where
  no_update already_current rolled_back no_artifact : Reason

pub data DownloadDecision : Type 0 where
  nothing : Reason → DownloadDecision
  download : DownloadPlan → DownloadDecision

pub record DownloadIdentity : Type 0 where
  pub current_version : Option String
  pub rolled_back_version : Option String

-- `hash === version`, for a `hash` that is not empty: an empty or undefined version never matches.
abbrev pub is_version : String → Option String → Bool
is_version hash none = false
is_version hash (some version) = hash == version

abbrev pub has_urls : Option (List String) → Bool
has_urls none = false
has_urls (some []) = false
has_urls (some (u ∷ us)) = true

-- `if (urls?.length) attempts.push({ type, urls })`.
abbrev pub attempt_for : DownloadStrategyType → Option (List String) → List DownloadAttempt
attempt_for strategy none = []
attempt_for strategy (some []) = []
attempt_for strategy (some (u ∷ us)) = record { strategy = strategy; urls = u ∷ us } ∷ []

unfoldable pub attempts_of : UpdateInfo → Bool → List DownloadAttempt
attempts_of info is_dev =
    (if is_dev
      then []
      else attempt_for diff (join_urls info.paths info.diff)
        ++ attempt_for pdiff (join_urls info.paths info.pdiff))
    ++ attempt_for full (join_urls info.paths info.full)

abbrev pub is_none_left : List DownloadAttempt → Bool
is_none_left [] = true
is_none_left (a ∷ as_) = false

unfoldable pub decide_download : UpdateInfo → DownloadIdentity → Bool → DownloadDecision
decide_download info identity is_dev =
    if not info.update || info.hash == ""
    then nothing no_update
    else if is_version info.hash identity.current_version
    then nothing already_current
    else if is_version info.hash identity.rolled_back_version
    then nothing rolled_back
    else let attempts = attempts_of info is_dev in
      let dev_noop = is_dev && not (has_urls (join_urls info.paths info.full)) in
      if is_none_left attempts && not dev_noop
      then nothing no_artifact
      else download (record { hash = info.hash; attempts = attempts; dev_noop = dev_noop })
