-- ===== src/Activation/Release.antt =====
-- The end of a switch in progress (src/clientActivation.ts): what each step keeps after it.
use react_native_pushy.Common.Pool.{nth_of, without_nth}
use react_native_pushy.Common.{ℕ, String, Bool, true, false}
use react_native_pushy.Common.{Option, none, some, List, [], ◌∷◌, ◌++◌, ◌≡◌, refl, arith}
use react_native_pushy.Events.{EventType, reset_failed}
use react_native_pushy.Activation.State.{
  owns_applying_update, clear_reload_watchdog, finish_applying_update, invalidate_applying_update,
  forget_downloads,
}
use react_native_pushy.Activation.Machine.{
  Env, Waiting, switch_hook, switch_reload, later_native, restart_hook, restart_native,
  reset_native, mark_native, Outcome, resolved, rejected, Timer, World, mark_success_call, finish,
  arm_reload_watchdog, Action, failed, throw_if_enabled, switch_version_later_call,
  restart_app_call, reset_call, after_switch_hook, after_switch_reload, after_restart_hook,
  after_restart, after_reset, after_mark_success, proceeds,
}
use react_native_pushy.Activation.Run.{
  after_later, resume, resume_some, settle, timer_callback, call_back, fire, commit_downloaded_hash,
  Event, mark_success, switch_version, switch_version_later, restart_app, reset_to_packaged_bundle,
  settles, fires, commits, step, run,
}
use react_native_pushy.Activation.Reloads.{
  is_reload, reloads, is_switch, no_switch, IsQuiet, reloads-append, reloads-append_none,
  reloads-report_if, IsQuiet-if,
}

finish-IsQuiet : (g n : ℕ) (w : World) → IsQuiet n w → IsQuiet n (finish g w)
unfolding finish finish_applying_update owns_applying_update clear_reload_watchdog
finish-IsQuiet g n w (off, count) = ground arith

arm_reload_watchdog-IsQuiet :
    (g n : ℕ) (w : World) → IsQuiet n w → IsQuiet n (arm_reload_watchdog g w)
unfolding arm_reload_watchdog owns_applying_update clear_reload_watchdog
arm_reload_watchdog-IsQuiet g n w (off, count) = ground arith

after_switch_hook-IsQuiet :
    (g : ℕ) (hash : String) (answer : Option Bool) (n : ℕ) (w : World)
    → IsQuiet n w
    → IsQuiet n (after_switch_hook g hash answer w)
unfolding after_switch_hook owns_applying_update reloads
after_switch_hook-IsQuiet g hash none n w h =
    let quiet = finish-IsQuiet g n w h in
    (quiet.0, reloads-append_none (finish g w).actions _ n refl quiet.1)
after_switch_hook-IsQuiet g hash (some false) n w h =
    let quiet = finish-IsQuiet g n w h in
    (quiet.0, reloads-append_none (finish g w).actions _ n refl quiet.1)
after_switch_hook-IsQuiet g hash (some true) n w (off, count) =
    ground (arith, reloads-append w.actions (Action.returned false ∷ []))

after_switch_reload-IsQuiet :
    (g : ℕ) (outcome : Outcome) (n : ℕ) (w : World)
    → IsQuiet n w
    → IsQuiet n (after_switch_reload g outcome w)
unfolding after_switch_reload reloads
after_switch_reload-IsQuiet g rejected n w h =
    let quiet = finish-IsQuiet g n w h in
    (quiet.0, reloads-append_none (finish g w).actions _ n refl quiet.1)
after_switch_reload-IsQuiet g (resolved b) n w h =
    let quiet = arm_reload_watchdog-IsQuiet g n w h in
    (quiet.0, reloads-append_none (arm_reload_watchdog g w).actions _ n refl quiet.1)

after_mark_success-IsQuiet :
    (env : Env) (outcome : Outcome) (n : ℕ) (w : World)
    → IsQuiet n w
    → IsQuiet n (after_mark_success env outcome w)
unfolding after_mark_success reloads
after_mark_success-IsQuiet env rejected n w (off, count) =
    (off, reloads-append_none w.actions _ n refl count)
after_mark_success-IsQuiet env (resolved b) n w (off, count) =
    (off, reloads-append_none w.actions _ n (simp (reloads-append, reloads-report_if) refl) count)

after_restart_hook-IsQuiet :
    (r : Bool) (answer : Option Bool) (n : ℕ) (w : World)
    → IsQuiet n w
    → IsQuiet n (after_restart_hook r answer w)
unfolding after_restart_hook reloads
after_restart_hook-IsQuiet true none n w (off, count) =
    (off, reloads-append_none w.actions _ n refl count)
after_restart_hook-IsQuiet false none n w (off, count) =
    (off, reloads-append_none w.actions _ n refl count)
after_restart_hook-IsQuiet true (some false) n w (off, count) =
    (off, reloads-append_none w.actions _ n refl count)
after_restart_hook-IsQuiet false (some false) n w (off, count) =
    (off, reloads-append_none w.actions _ n refl count)
after_restart_hook-IsQuiet r (some true) n w (off, count) =
    (off, reloads-append_none w.actions _ n refl count)

after_restart-IsQuiet :
    (r : Bool) (outcome : Outcome) (n : ℕ) (w : World)
    → IsQuiet n w
    → IsQuiet n (after_restart r outcome w)
unfolding after_restart reloads
after_restart-IsQuiet true rejected n w (off, count) =
    (off, reloads-append_none w.actions _ n refl count)
after_restart-IsQuiet false rejected n w (off, count) =
    (off, reloads-append_none w.actions _ n refl count)
after_restart-IsQuiet true (resolved b) n w (off, count) =
    (off, reloads-append_none w.actions _ n refl count)
after_restart-IsQuiet false (resolved b) n w (off, count) =
    (off, reloads-append_none w.actions _ n refl count)

reloads-throw_if_enabled :
    (env : Env) (a : Action) → is_reload a ≡ false → reloads (a ∷ throw_if_enabled env ∷ []) ≡ 0
unfolding reloads
reloads-throw_if_enabled env a h = ground arith

pub reset_done-IsQuiet :
    (env : Env) (restart b : Bool) (n : ℕ) (w : World)
    → reloads w.actions ≡ n
    → IsQuiet n (after_reset env restart (resolved b) w)
unfolding after_reset restart_app_call forget_downloads invalidate_applying_update
    clear_reload_watchdog reloads
reset_done-IsQuiet env true b n w count = (refl, reloads-append_none w.actions _ n refl count)
reset_done-IsQuiet env false b n w count = (
  refl,
  reloads-append_none (w.actions ++ _ ∷ []) (Action.returned true ∷ []) n refl
      (reloads-append_none w.actions _ n refl count),
)

after_reset-IsQuiet :
    (env : Env) (restart : Bool) (outcome : Outcome) (n : ℕ) (w : World)
    → IsQuiet n w
    → IsQuiet n (after_reset env restart outcome w)
unfolding after_reset
after_reset-IsQuiet env restart rejected n w (off, count) = (
  off,
  reloads-append_none w.actions _ n
      (reloads-throw_if_enabled env (failed reset_failed EventType.error_reset) refl) count,
)
after_reset-IsQuiet env restart (resolved b) n w (off, count) =
    reset_done-IsQuiet env restart b n w count

after_later-IsQuiet :
    (outcome : Outcome) (n : ℕ) (w : World) → IsQuiet n w → IsQuiet n (after_later outcome w)
unfolding after_later reloads
after_later-IsQuiet rejected n w (off, count) = (off, reloads-append_none w.actions _ n refl count)
after_later-IsQuiet (resolved b) n w (off, count) =
    (off, reloads-append_none w.actions _ n refl count)

resume-IsQuiet :
    (env : Env) (x : Waiting) (outcome : Outcome) (n : ℕ) (w : World)
    → IsQuiet n w
    → IsQuiet n (resume env x outcome w)
unfolding resume
resume-IsQuiet env (switch_hook g hash) o n w h =
    after_switch_hook-IsQuiet g hash (proceeds env o) n w h
resume-IsQuiet env (switch_reload g hash) o n w h = after_switch_reload-IsQuiet g o n w h
resume-IsQuiet env later_native o n w h = after_later-IsQuiet o n w h
resume-IsQuiet env (restart_hook r) o n w h = after_restart_hook-IsQuiet r (proceeds env o) n w h
resume-IsQuiet env (restart_native r) o n w h = after_restart-IsQuiet r o n w h
resume-IsQuiet env (reset_native r) o n w h = after_reset-IsQuiet env r o n w h
resume-IsQuiet env mark_native o n w h = after_mark_success-IsQuiet env o n w h

call_back-IsQuiet :
    (found : Option Timer) (n : ℕ) (w : World) → IsQuiet n w → IsQuiet n (call_back found w)
unfolding timer_callback owns_applying_update
call_back-IsQuiet none n w h = h
call_back-IsQuiet (some timer) n w (off, count) = ground (arith)

resume_some-IsQuiet :
    (env : Env) (found : Option Waiting) (outcome : Outcome) (n : ℕ) (w : World)
    → IsQuiet n w
    → IsQuiet n (resume_some env found outcome w)
resume_some-IsQuiet env none o n w h = h
resume_some-IsQuiet env (some x) o n w h = resume-IsQuiet env x o n w h

reset_call-IsQuiet :
    (env : Env) (restart : Bool) (n : ℕ) (w : World)
    → IsQuiet n w
    → IsQuiet n (reset_call env restart w)
unfolding reset_call reloads
reset_call-IsQuiet env restart n w (off, count) =
    IsQuiet-if env.is_web n _ _ (off, reloads-append_none w.actions _ n refl count)
      (IsQuiet-if env.has_native_reset n _ _ (off, reloads-append_none w.actions _ n refl count)
        (
          off,
          reloads-append_none w.actions _ n
              (reloads-throw_if_enabled env (failed reset_failed EventType.error_reset) refl) count,
        ))

mark_success_call-IsQuiet :
    (env : Env) (n : ℕ) (w : World) → IsQuiet n w → IsQuiet n (mark_success_call env w)
unfolding mark_success_call reloads
mark_success_call-IsQuiet env n w (off, count) =
    IsQuiet-if _ n _ _ (off, reloads-append_none w.actions _ n refl count)
      (IsQuiet-if w.state.is_marking n w _ (off, count)
        (off, reloads-append_none w.actions _ n refl count))

switch_version_later_call-IsQuiet :
    (env : Env) (hash : String) (n : ℕ) (w : World)
    → IsQuiet n w
    → IsQuiet n (switch_version_later_call env hash w)
unfolding switch_version_later_call reloads
switch_version_later_call-IsQuiet env hash n w (off, count) =
    IsQuiet-if _ n _ _ (off, reloads-append_none w.actions _ n refl count)
      (off, reloads-append_none w.actions _ n refl count)

step-IsQuiet :
    (env : Env) (e : Event) (n : ℕ) (w : World)
    → is_switch e ≡ false
    → IsQuiet n w
    → IsQuiet n (step env e w)
unfolding step settle fire commit_downloaded_hash restart_app_call
step-IsQuiet env mark_success n w s h = mark_success_call-IsQuiet env n w h
step-IsQuiet env (switch_version hash) n w s h = ground arith
step-IsQuiet env (switch_version_later hash) n w s h =
    switch_version_later_call-IsQuiet env hash n w h
step-IsQuiet env restart_app n w s h = h
step-IsQuiet env (reset_to_packaged_bundle restart) n w s h = reset_call-IsQuiet env restart n w h
step-IsQuiet env (settles k outcome) n w s h =
    resume_some-IsQuiet env (nth_of k w.waiting) outcome n
      (record w { waiting = without_nth k w.waiting }) h
step-IsQuiet env (fires k) n w s h = call_back-IsQuiet (nth_of k w.timers) n w h
step-IsQuiet env (commits hash) n w s h = h

pub run-IsQuiet :
    (env : Env) (es : List Event) (n : ℕ) (w : World)
    → no_switch es ≡ true
    → IsQuiet n w
    → IsQuiet n (run env es w)
unfolding run no_switch
run-IsQuiet env [] n w s h = h
run-IsQuiet env (e ∷ es) n w s h =
    run-IsQuiet env es n (step env e w) (ground arith) (step-IsQuiet env e n w (ground arith) h)
