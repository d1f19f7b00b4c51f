-- ===== src/Activation/State.antt =====
-- The process state (src/clientState.ts) and the ownership of `applyingUpdate`
-- (src/clientActivation.ts).
use react_native_pushy.Common.{ℕ, ◌+◌, String, Bool, true, false, ◌&&◌, beq, ◌==◌}
use react_native_pushy.Common.{Option, none, some, if◌then◌else◌}

pub data ApkStatus : Type 0 where
  downloading downloaded : ApkStatus

-- SharedState and ProcessState, less the download tasks and their callbacks. The watchdog is the
-- identity of the timer that is armed.
pub record State : Type 0 where
  pub downloaded_hash : Option String
  pub to_hash : Option String
  pub apk_status : Option ApkStatus
  pub marked : Bool
  pub applying_update : Bool
  pub generation : ℕ
  pub watchdog : Option ℕ
  pub is_marking : Bool

unfoldable pub create_process_state : State
create_process_state = record {
  downloaded_hash = none;
  to_hash = none;
  apk_status = none;
  marked = false;
  applying_update = false;
  generation = 0;
  watchdog = none;
  is_marking = false;
}

unfoldable pub clear_reload_watchdog : State → State
clear_reload_watchdog s = record s { watchdog = none }

-- The new generation is the state's `generation` after the call.
unfoldable pub begin_applying_update : State → State
unfolding clear_reload_watchdog
begin_applying_update s = record (clear_reload_watchdog s) {
  applying_update = true;
  generation = s.generation + 1;
}

unfoldable pub owns_applying_update : ℕ → State → Bool
owns_applying_update g s = beq g s.generation && s.applying_update

unfoldable pub finish_applying_update : ℕ → State → State
unfolding owns_applying_update clear_reload_watchdog
finish_applying_update g s =
    if owns_applying_update g s
    then record (clear_reload_watchdog s) { applying_update = false }
    else s

unfoldable pub invalidate_applying_update : State → State
unfolding clear_reload_watchdog
invalidate_applying_update s = record (clear_reload_watchdog s) {
  generation = s.generation + 1;
  applying_update = false;
}

abbrev pub is_truthy : Option String → Bool
is_truthy none = false
is_truthy (some h) = if h == "" then false else true

abbrev pub is_same : Option String → String → Bool
is_same none hash = false
is_same (some h) hash = hash == h

-- `assertHash`: only the downloaded version.
unfoldable pub assert_hash : String → State → Bool
assert_hash hash s = is_truthy s.downloaded_hash && is_same s.downloaded_hash hash

-- What `resetToPackagedBundle` clears once the native reset is done.
unfoldable pub forget_downloads : State → State
unfolding invalidate_applying_update
forget_downloads s =
    record (invalidate_applying_update
      (record s { downloaded_hash = none; to_hash = none; marked = false })) { apk_status = none }
