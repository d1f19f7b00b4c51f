-- ===== src/Activation/Run.antt =====
-- The steps of src/clientActivation.ts put in sequence: any order of calls, settlements and timer
-- callbacks.
use react_native_pushy.Common.Pool.{nth_of, without_nth}
use react_native_pushy.Common.{ℕ, String, Bool, false, ◌&&◌, beq}
use react_native_pushy.Common.{Option, none, some, List, [], ◌∷◌, if◌then◌else◌}
use react_native_pushy.Events.{EventType, switch_version_failed, restart_failed}
use react_native_pushy.Activation.State.{owns_applying_update}
use react_native_pushy.Activation.Machine.{
  Env, Waiting, switch_hook, switch_reload, later_native, restart_hook, restart_native,
  reset_native, mark_native, Outcome, resolved, rejected, Timer, reported, failed, completed,
  thrown, World, act, put_state, proceeds, mark_success_call, switch_version_call,
  switch_version_later_call, restart_app_call, reset_call, after_switch_hook, after_switch_reload,
  after_restart_hook, after_restart, after_reset, after_mark_success,
}

unfoldable pub after_later : Outcome → World → World
after_later rejected w =
    act (failed switch_version_failed EventType.error_switch_version ∷ thrown ∷ []) w
after_later (resolved b) w = act (completed ∷ []) w

-- The code behind an `await` goes on.
unfoldable pub resume : Env → Waiting → Outcome → World → World
resume env (switch_hook g hash) outcome w = after_switch_hook g hash (proceeds env outcome) w
resume env (switch_reload g hash) outcome w = after_switch_reload g outcome w
resume env later_native outcome w = after_later outcome w
resume env (restart_hook r) outcome w = after_restart_hook r (proceeds env outcome) w
resume env (restart_native r) outcome w = after_restart r outcome w
resume env (reset_native restart) outcome w = after_reset env restart outcome w
resume env mark_native outcome w = after_mark_success env outcome w

abbrev pub resume_some : Env → Option Waiting → Outcome → World → World
resume_some env none outcome w = w
resume_some env (some x) outcome w = resume env x outcome w

-- The promise that the entry at this place awaits settles.
unfoldable pub settle : Env → ℕ → Outcome → World → World
settle env k outcome w =
    resume_some env (nth_of k w.waiting) outcome (record w { waiting = without_nth k w.waiting })

abbrev pub is_armed : Option ℕ → ℕ → Bool
is_armed none id = false
is_armed (some t) id = beq t id

-- The callback that `armReloadWatchdog` gives a timer: both identities must match.
unfoldable pub timer_callback : Timer → World → World
timer_callback timer w =
    if is_armed w.state.watchdog timer.id && owns_applying_update timer.generation w.state
    then act (reported EventType.error_switch_version (some restart_failed) ∷ [])
        (put_state (record w.state { watchdog = none; applying_update = false }) w)
    else w

abbrev pub call_back : Option Timer → World → World
call_back none w = w
call_back (some timer) w = timer_callback timer w

unfoldable pub fire : ℕ → World → World
fire k w = call_back (nth_of k w.timers) w

-- `commitDownloadedVersion` of src/clientDownload.ts, as far as it writes this state.
unfoldable pub commit_downloaded_hash : String → World → World
commit_downloaded_hash hash w = put_state (record w.state { downloaded_hash = some hash }) w

pub data Event : Type 0 where
  mark_success : Event
  switch_version switch_version_later : String → Event
  restart_app : Event
  reset_to_packaged_bundle : Bool → Event
  settles : ℕ → Outcome → Event
  fires : ℕ → Event
  commits : String → Event

unfoldable pub step : Env → Event → World → World
step env mark_success w = mark_success_call env w
step env (switch_version hash) w = switch_version_call env hash w
step env (switch_version_later hash) w = switch_version_later_call env hash w
step env restart_app w = restart_app_call false w
step env (reset_to_packaged_bundle restart) w = reset_call env restart w
step env (settles k outcome) w = settle env k outcome w
step env (fires k) w = fire k w
step env (commits hash) w = commit_downloaded_hash hash w

unfoldable pub run : Env → List Event → World → World
unfolding step
run env [] w = w
run env (e ∷ es) w = run env es (step env e w)
