-- ===== src/Activation/Tests.antt =====
-- The theorems on src/clientActivation.ts at concrete values, and a run of it.
use react_native_pushy.Common.Pool.{nth_of, without_nth}
use react_native_pushy.Common.{true, false, some, List, [], ◌∷◌, ◌++◌, ◌≡◌, refl}
use react_native_pushy.Events.{EventType, restart_failed}
use react_native_pushy.Activation.State.{
  create_process_state, owns_applying_update, begin_applying_update, assert_hash,
}
use react_native_pushy.Activation.Machine.{
  Env, World, init, resolved, rejected, reported, returned, native_reload, switch_hook, after_reset,
  switch_version_call, after_switch_hook, after_switch_reload, arm_reload_watchdog,
}
use react_native_pushy.Activation.Run.{
  Event, mark_success, switch_version, settles, fires, commits, step, run, settle, fire,
  commit_downloaded_hash, resume, timer_callback,
}
use react_native_pushy.Activation.Invariant.{IsOwned}
use react_native_pushy.Activation.Laws.{run-init-IsOwned}
use react_native_pushy.Activation.Reloads.{reloads, no_switch}
use react_native_pushy.Activation.Superseded.{
  Released, run-Released, run-after_reset, SameSwitch, settle-SameSwitch,
}

abbrev production : Env
production = record {
  is_dev = false;
  debug = false;
  is_web = false;
  is_first_time = true;
  has_before_reload = true;
  has_native_reset = true;
  throw_error = false;
  force_boot_rescue = false;
  crash_rescue = false;
}

abbrev switching : List Event
switching = commits "v2" ∷ switch_version "v2" ∷ settles 0 (resolved true) ∷ []

run-init-IsOwned_example : IsOwned (run production (switching ++ mark_success ∷ []) init)
run-init-IsOwned_example = run-init-IsOwned production (switching ++ mark_success ∷ [])

run-Released_example : Released production (run production switching init)
unfolding run step settle commit_downloaded_hash switch_version_call assert_hash
    begin_applying_update resume nth_of after_switch_hook owns_applying_update init
    create_process_state
run-Released_example = run-Released production switching refl

run-after_reset_example :
    ((run production (settles 0 (resolved true) ∷ fires 0 ∷ []) (
        after_reset production false
          (resolved true)
          (run production switching init))).state.applying_update
      ≡ false)
    × (reloads
          (run production
            (settles 0 (resolved true) ∷ fires 0 ∷ [])
            (after_reset production false (resolved true) (run production switching init))).actions
        ≡ reloads (run production switching init).actions)
unfolding no_switch
run-after_reset_example =
    run-after_reset production false true (run production switching init)
      (settles 0 (resolved true) ∷ fires 0 ∷ []) refl

-- A switch of the first generation, while the second is current.
abbrev newer : World
newer = record init {
  state = record create_process_state { generation = 2; applying_update = true };
  waiting = switch_hook 1 "v2" ∷ switch_hook 2 "v3" ∷ [];
}

settle-SameSwitch_example : SameSwitch (settle production 0 rejected newer) newer
unfolding init create_process_state nth_of
settle-SameSwitch_example =
    settle-SameSwitch production 0 (switch_hook 1 "v2") rejected newer refl refl

-- A reload that resolves without a restart is reported when the watchdog calls back.
watchdog_test :
    (run production (switching ++ settles 0 (resolved true) ∷ fires 0 ∷ []) init).actions
    ≡ native_reload "v2"
      ∷ returned true
      ∷ reported EventType.error_switch_version (some restart_failed)
      ∷ []
unfolding run step settle fire commit_downloaded_hash switch_version_call assert_hash
    begin_applying_update resume nth_of without_nth after_switch_hook after_switch_reload
    arm_reload_watchdog timer_callback owns_applying_update init create_process_state
watchdog_test = refl
