-- ===== src/Activation/Machine.antt =====
-- src/clientActivation.ts as steps. What awaits a promise is a value in `waiting`; a step is a call,
-- the settlement of one awaited promise, or the callback of a timer.
use react_native_pushy.Common.{ℕ, ◌+◌, String, Bool, true, false, ◌||◌, ◌&&◌, not}
use react_native_pushy.Common.{Option, none, some, List, [], ◌∷◌, ◌++◌, if◌then◌else◌}
use react_native_pushy.Events.{
  EventType, UpdateErrorCode, user_hook_error, switch_version_failed, restart_failed, reset_failed,
  mark_success_failed,
}
use react_native_pushy.Activation.State.{
  State, create_process_state, clear_reload_watchdog, begin_applying_update, owns_applying_update,
  finish_applying_update, assert_hash, forget_downloads,
}

-- What the steps read of the client and the platform.
pub record Env : Type 0 where
  pub is_dev : Bool
  pub debug : Bool
  pub is_web : Bool
  pub is_first_time : Bool
  pub has_before_reload : Bool
  pub has_native_reset : Bool
  pub throw_error : Bool
  pub force_boot_rescue : Bool
  pub crash_rescue : Bool

-- The code behind an `await`, with what it captured. `from_reset` marks a restart that
-- resetToPackagedBundle asked for.
pub data Waiting : Type 0 where
  switch_hook : ℕ → String → Waiting
  switch_reload : ℕ → String → Waiting
  later_native : Waiting
  restart_hook : Bool → Waiting
  restart_native : Bool → Waiting
  reset_native : Bool → Waiting
  mark_native : Waiting

-- A promise resolves, the hook's with the Boolean that it returned, or rejects.
pub data Outcome : Type 0 where
  resolved : Bool → Outcome
  rejected : Outcome

-- A timer that was set: it may still call back after it was cleared.
pub record Timer : Type 0 where
  pub id : ℕ
  pub generation : ℕ

-- What leaves the client, in order. A failure has the code that it has where the thrown value
-- brings none.
pub data Action : Type 0 where
  native_mark_success native_restart native_reset : Action
  native_reload native_set_need_update : String → Action
  reported : EventType → Option UpdateErrorCode → Action
  failed : UpdateErrorCode → EventType → Action
  returned : Bool → Action
  completed thrown : Action

pub record World : Type 0 where
  pub state : State
  pub waiting : List Waiting
  pub timers : List Timer
  pub next_timer : ℕ
  pub actions : List Action

unfoldable pub init : World
init = record {
  state = create_process_state;
  waiting = [];
  timers = [];
  next_timer = 0;
  actions = [];
}

abbrev pub act : List Action → World → World
act more w = record w { actions = w.actions ++ more }

abbrev pub wait : Waiting → World → World
wait x w = record w { waiting = x ∷ w.waiting }

abbrev pub put_state : State → World → World
put_state s w = record w { state = s }

abbrev pub assert_debug : Env → Bool
assert_debug env = not (env.is_dev && not env.debug)

-- `runBeforeReload`: false where the hook declined; without a hook nothing declines.
abbrev pub proceeds : Env → Outcome → Option Bool
proceeds env (resolved b) = some (not env.has_before_reload || b)
proceeds env rejected = if env.has_before_reload then none else some true

unfoldable pub mark_success_call : Env → World → World
mark_success_call env w =
    if w.state.marked || env.is_dev || not env.is_first_time
    then act (completed ∷ []) w
    else if w.state.is_marking
    then w
    else act (native_mark_success ∷ [])
        (wait mark_native (put_state (record w.state { is_marking = true }) w))

unfoldable pub switch_version_call : Env → String → World → World
switch_version_call env hash w =
    if not (assert_debug env) || not (assert_hash hash w.state) || w.state.applying_update
    then act (returned false ∷ []) w
    else let s = begin_applying_update w.state in
      wait (switch_hook s.generation hash) (put_state s w)

unfoldable pub switch_version_later_call : Env → String → World → World
switch_version_later_call env hash w =
    if not (assert_debug env) || not (assert_hash hash w.state)
    then act (completed ∷ []) w
    else act (native_set_need_update hash ∷ []) (wait later_native w)

unfoldable pub restart_app_call : Bool → World → World
restart_app_call from_reset w = wait (restart_hook from_reset) w

abbrev pub throw_if_enabled : Env → Action
throw_if_enabled env = if env.throw_error then thrown else returned false

unfoldable pub reset_call : Env → Bool → World → World
reset_call env restart w =
    if env.is_web
    then act (returned false ∷ []) w
    else if env.has_native_reset
    then act (native_reset ∷ []) (wait (reset_native restart) w)
    else act (failed reset_failed EventType.error_reset ∷ throw_if_enabled env ∷ []) w

-- `armReloadWatchdog`.
unfoldable pub arm_reload_watchdog : ℕ → World → World
arm_reload_watchdog g w =
    if owns_applying_update g w.state
    then record w {
      state = record (clear_reload_watchdog w.state) { watchdog = some w.next_timer };
      timers = record { id = w.next_timer; generation = g } ∷ w.timers;
      next_timer = w.next_timer + 1;
    }
    else w

unfoldable pub finish : ℕ → World → World
finish g w = put_state (finish_applying_update g w.state) w

-- After beforeReload: the switch may have lost its ownership to a reset.
unfoldable pub after_switch_hook : ℕ → String → Option Bool → World → World
after_switch_hook g hash none w =
    act (failed user_hook_error EventType.error_switch_version ∷ thrown ∷ []) (finish g w)
after_switch_hook g hash (some false) w = act (returned false ∷ []) (finish g w)
after_switch_hook g hash (some true) w =
    if owns_applying_update g w.state
    then act (native_reload hash ∷ []) (wait (switch_reload g hash) w)
    else act (returned false ∷ []) w

unfoldable pub after_switch_reload : ℕ → Outcome → World → World
after_switch_reload g rejected w =
    act (failed switch_version_failed EventType.error_switch_version ∷ thrown ∷ []) (finish g w)
after_switch_reload g (resolved b) w = act (returned true ∷ []) (arm_reload_watchdog g w)

-- How a restart ends: inside a reset, the reset still returns true.
abbrev pub restart_result : Bool → Action → Action
restart_result from_reset other = if from_reset then returned true else other

unfoldable pub after_restart_hook : Bool → Option Bool → World → World
after_restart_hook r none w =
    act (failed user_hook_error EventType.error_restart ∷ restart_result r thrown ∷ []) w
after_restart_hook r (some false) w = act (restart_result r completed ∷ []) w
after_restart_hook r (some true) w = act (native_restart ∷ []) (wait (restart_native r) w)

unfoldable pub after_restart : Bool → Outcome → World → World
after_restart r rejected w =
    act (failed restart_failed EventType.error_restart ∷ restart_result r thrown ∷ []) w
after_restart r (resolved b) w = act (restart_result r completed ∷ []) w

unfoldable pub after_reset : Env → Bool → Outcome → World → World
after_reset env restart rejected w =
    act (failed reset_failed EventType.error_reset ∷ throw_if_enabled env ∷ []) w
after_reset env restart (resolved b) w =
    let done = act (reported EventType.reset none ∷ []) (put_state (forget_downloads w.state) w) in
    if restart then restart_app_call true done else act (returned true ∷ []) done

abbrev pub report_if : Bool → EventType → List Action
report_if b event = if b then reported event none ∷ [] else []

-- The settlement of the native markSuccess and the `finally` that drops the shared promise.
unfoldable pub after_mark_success : Env → Outcome → World → World
after_mark_success env rejected w =
    act (failed mark_success_failed EventType.error_mark_success ∷ thrown ∷ [])
      (put_state (record w.state { is_marking = false }) w)
after_mark_success env (resolved b) w =
    act
      (reported EventType.mark_success none
          ∷ report_if env.force_boot_rescue EventType.force_boot_rescue
        ++ report_if env.crash_rescue EventType.crash_rescue
        ++ completed ∷ [])
      (put_state (record w.state { is_marking = false; marked = true }) w)
