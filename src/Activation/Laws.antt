-- ===== src/Activation/Laws.antt =====
-- The invariant of the switch in progress through the runs of src/clientActivation.ts.
use react_native_pushy.Common.Pool.{count_if, nth_of, without_nth}
use react_native_pushy.Common.{ℕ, zero, suc, String, Bool, true, false}
use react_native_pushy.Common.{Option, none, some, List, [], ◌∷◌, ◌≡◌, refl, arith}
use react_native_pushy.Activation.State.{
  create_process_state, owns_applying_update, clear_reload_watchdog, begin_applying_update,
  invalidate_applying_update, forget_downloads,
}
use react_native_pushy.Activation.Machine.{
  Env, Waiting, switch_hook, switch_reload, later_native, restart_hook, restart_native,
  reset_native, mark_native, Outcome, resolved, rejected, Timer, World, init, mark_success_call,
  switch_version_call, arm_reload_watchdog, switch_version_later_call, restart_app_call, reset_call,
  after_switch_hook, after_switch_reload, after_restart_hook, after_restart, after_reset,
  after_mark_success, proceeds,
}
use react_native_pushy.Activation.Run.{
  after_later, resume, resume_some, settle, timer_callback, call_back, fire, commit_downloaded_hash,
  Event, mark_success, switch_version, switch_version_later, restart_app, reset_to_packaged_bundle,
  settles, fires, commits, step, run,
}
use react_native_pushy.Activation.Invariant.{
  has_generation, is_mark, all_below, has_timer, Inv, IsOwned, all_below-suc, count_if-suc,
  IsOwned-front, finish-IsOwned,
}

after_switch_hook-IsOwned :
    (g : ℕ) (hash : String) (answer : Option Bool) (w : World)
    → Inv w.state (switch_hook g hash ∷ w.waiting) w.timers
    → IsOwned (after_switch_hook g hash answer w)
unfolding after_switch_hook all_below count_if owns_applying_update
after_switch_hook-IsOwned g hash none w h = finish-IsOwned g (switch_hook g hash) w refl refl h
after_switch_hook-IsOwned g hash (some false) w h =
    finish-IsOwned g (switch_hook g hash) w refl refl h
after_switch_hook-IsOwned g hash (some true) w (below, owners, timed, marks) = ground arith

arm_reload_watchdog-IsOwned :
    (g : ℕ) (hash : String) (w : World)
    → Inv w.state (switch_reload g hash ∷ w.waiting) w.timers
    → IsOwned (arm_reload_watchdog g w)
unfolding arm_reload_watchdog owns_applying_update clear_reload_watchdog all_below count_if
    has_timer
arm_reload_watchdog-IsOwned g hash w (below, owners, timed, marks) = ground arith

after_switch_reload-IsOwned :
    (g : ℕ) (hash : String) (outcome : Outcome) (w : World)
    → Inv w.state (switch_reload g hash ∷ w.waiting) w.timers
    → IsOwned (after_switch_reload g outcome w)
unfolding after_switch_reload
after_switch_reload-IsOwned g hash rejected w h =
    finish-IsOwned g (switch_reload g hash) w refl refl h
after_switch_reload-IsOwned g hash (resolved b) w h = arm_reload_watchdog-IsOwned g hash w h

mark_success_call-IsOwned : (env : Env) (w : World) → IsOwned w → IsOwned (mark_success_call env w)
unfolding mark_success_call all_below count_if
mark_success_call-IsOwned env w (below, owners, timed, marks) = ground arith

switch_version_call-IsOwned :
    (env : Env) (hash : String) (w : World) → IsOwned w → IsOwned (switch_version_call env hash w)
unfolding switch_version_call all_below count_if begin_applying_update clear_reload_watchdog
switch_version_call-IsOwned env hash w (below, owners, timed, marks) = ground (
  arith,
  all_below-suc w.state.generation w.waiting below,
  count_if-suc w.state.generation w.waiting below,
)

after_restart_hook-IsOwned :
    (r : Bool) (answer : Option Bool) (w : World)
    → IsOwned w
    → IsOwned (after_restart_hook r answer w)
unfolding after_restart_hook all_below count_if
after_restart_hook-IsOwned r none w h = h
after_restart_hook-IsOwned r (some false) w h = h
after_restart_hook-IsOwned r (some true) w (below, owners, timed, marks) = ground arith

after_restart-IsOwned :
    (r : Bool) (outcome : Outcome) (w : World) → IsOwned w → IsOwned (after_restart r outcome w)
unfolding after_restart
after_restart-IsOwned r rejected w h = h
after_restart-IsOwned r (resolved b) w h = h

after_later-IsOwned : (outcome : Outcome) (w : World) → IsOwned w → IsOwned (after_later outcome w)
unfolding after_later
after_later-IsOwned rejected w h = h
after_later-IsOwned (resolved b) w h = h

after_reset-IsOwned :
    (env : Env) (restart : Bool) (outcome : Outcome) (w : World)
    → IsOwned w
    → IsOwned (after_reset env restart outcome w)
unfolding after_reset restart_app_call forget_downloads invalidate_applying_update
    clear_reload_watchdog all_below count_if
after_reset-IsOwned env restart rejected w h = h
after_reset-IsOwned env restart (resolved b) w (below, owners, timed, marks) = ground (
  arith,
  all_below-suc w.state.generation w.waiting below,
  count_if-suc w.state.generation w.waiting below,
)

after_mark_success-IsOwned :
    (env : Env) (outcome : Outcome) (w : World)
    → Inv w.state (mark_native ∷ w.waiting) w.timers
    → IsOwned (after_mark_success env outcome w)
unfolding after_mark_success all_below count_if
after_mark_success-IsOwned env rejected w (below, owners, timed, marks) = ground arith
after_mark_success-IsOwned env (resolved b) w (below, owners, timed, marks) = ground arith

reset_call-IsOwned :
    (env : Env) (restart : Bool) (w : World) → IsOwned w → IsOwned (reset_call env restart w)
unfolding reset_call all_below count_if
reset_call-IsOwned env restart w (below, owners, timed, marks) = ground arith

switch_version_later_call-IsOwned :
    (env : Env) (hash : String) (w : World)
    → IsOwned w
    → IsOwned (switch_version_later_call env hash w)
unfolding switch_version_later_call all_below count_if
switch_version_later_call-IsOwned env hash w (below, owners, timed, marks) = ground arith

-- What awaits neither a switch nor markSuccess does not count.
drop_plain :
    (x : Waiting) (w : World)
    → ((g : ℕ) → has_generation g x ≡ false)
    → is_mark x ≡ false
    → Inv w.state (x ∷ w.waiting) w.timers
    → IsOwned w
unfolding all_below count_if
drop_plain x w g_free m_free (below, owners, timed, marks) =
    ground (arith, g_free w.state.generation)

resume-IsOwned :
    (env : Env) (x : Waiting) (outcome : Outcome) (w : World)
    → Inv w.state (x ∷ w.waiting) w.timers
    → IsOwned (resume env x outcome w)
unfolding resume
resume-IsOwned env (switch_hook g hash) o w h =
    after_switch_hook-IsOwned g hash (proceeds env o) w h
resume-IsOwned env (switch_reload g hash) o w h = after_switch_reload-IsOwned g hash o w h
resume-IsOwned env later_native o w h =
    after_later-IsOwned o w (drop_plain later_native w (λ g. refl) refl h)
resume-IsOwned env (restart_hook r) o w h =
    after_restart_hook-IsOwned r (proceeds env o) w
      (drop_plain (restart_hook r) w (λ g. refl) refl h)
resume-IsOwned env (restart_native r) o w h =
    after_restart-IsOwned r o w (drop_plain (restart_native r) w (λ g. refl) refl h)
resume-IsOwned env (reset_native r) o w h =
    after_reset-IsOwned env r o w (drop_plain (reset_native r) w (λ g. refl) refl h)
resume-IsOwned env mark_native o w h = after_mark_success-IsOwned env o w h

without_nth-none : (k : ℕ) (xs : List Waiting) → nth_of k xs ≡ none → without_nth k xs ≡ xs
unfolding nth_of without_nth
without_nth-none k [] h = refl
without_nth-none zero (x ∷ xs) h = ground arith
without_nth-none (suc k) (x ∷ xs) h = ground (arith, without_nth-none k xs h)

restart_app_call-IsOwned :
    (from_reset : Bool) (w : World) → IsOwned w → IsOwned (restart_app_call from_reset w)
unfolding restart_app_call all_below count_if
restart_app_call-IsOwned from_reset w (below, owners, timed, marks) = ground arith

resume_some-IsOwned :
    (env : Env) (k : ℕ) (found : Option Waiting) (outcome : Outcome) (w : World)
    → nth_of k w.waiting ≡ found
    → IsOwned w
    → IsOwned (resume_some env found outcome (record w { waiting = without_nth k w.waiting }))
resume_some-IsOwned env k none outcome w e h = rw (without_nth-none k w.waiting e) h
resume_some-IsOwned env k (some x) outcome w e h =
    resume-IsOwned env x outcome (record w { waiting = without_nth k w.waiting })
      (IsOwned-front w x k e h)

timer_callback-IsOwned : (timer : Timer) (w : World) → IsOwned w → IsOwned (timer_callback timer w)
unfolding timer_callback owns_applying_update
timer_callback-IsOwned timer w (below, owners, timed, marks) = ground arith

call_back-IsOwned : (found : Option Timer) (w : World) → IsOwned w → IsOwned (call_back found w)
call_back-IsOwned none w h = h
call_back-IsOwned (some timer) w h = timer_callback-IsOwned timer w h

step-IsOwned : (env : Env) (e : Event) (w : World) → IsOwned w → IsOwned (step env e w)
unfolding step restart_app_call settle fire commit_downloaded_hash
step-IsOwned env mark_success w h = mark_success_call-IsOwned env w h
step-IsOwned env (switch_version hash) w h = switch_version_call-IsOwned env hash w h
step-IsOwned env (switch_version_later hash) w h = switch_version_later_call-IsOwned env hash w h
step-IsOwned env restart_app w h = restart_app_call-IsOwned false w h
step-IsOwned env (reset_to_packaged_bundle restart) w h = reset_call-IsOwned env restart w h
step-IsOwned env (settles k outcome) w h =
    resume_some-IsOwned env k (nth_of k w.waiting) outcome w refl h
step-IsOwned env (fires k) w h = call_back-IsOwned (nth_of k w.timers) w h
step-IsOwned env (commits hash) w h = h

run-IsOwned : (env : Env) (es : List Event) (w : World) → IsOwned w → IsOwned (run env es w)
unfolding run
run-IsOwned env [] w h = h
run-IsOwned env (e ∷ es) w h = run-IsOwned env es (step env e w) (step-IsOwned env e w h)

-- In every order of calls, settlements and timer callbacks, a switch in progress has exactly one
-- owner: one waiting switch of the current generation, or the armed watchdog, with a timer of this
-- generation behind it. Nothing owns where no switch is in progress, no waiting switch is of a later
-- generation, and a native markSuccess is in flight exactly while its promise is shared, one at a
-- time.
pub run-init-IsOwned : (env : Env) (es : List Event) → IsOwned (run env es init)
unfolding init create_process_state all_below count_if
run-init-IsOwned env es = run-IsOwned env es init (refl, refl, refl, refl)
