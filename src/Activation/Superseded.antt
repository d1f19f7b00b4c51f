-- ===== src/Activation/Superseded.antt =====
-- Reset, newer switches and the watchdog against a switch in progress (src/clientActivation.ts).
use react_native_pushy.Common.Pool.{count_if, nth_of, without_nth}
use react_native_pushy.Common.{
  ℕ, suc, String, Bool, true, false, ◌&&◌, not, beq, Bool-cases, inl, inr,
}
use react_native_pushy.Common.{Option, none, some, List, [], ◌∷◌, ◌≡◌, refl, arith}
use react_native_pushy.Activation.State.{owns_applying_update, finish_applying_update}
use react_native_pushy.Activation.Machine.{
  Env, Waiting, switch_hook, switch_reload, Outcome, resolved, rejected, Timer, World, init, finish,
  arm_reload_watchdog, after_switch_hook, after_switch_reload, after_reset, proceeds,
}
use react_native_pushy.Activation.Run.{
  resume, settle, timer_callback, fire, Event, settles, fires, step, run,
}
use react_native_pushy.Activation.Invariant.{has_generation, has_timer, IsOwned}
use react_native_pushy.Activation.Laws.{run-init-IsOwned}
use react_native_pushy.Activation.Reloads.{reloads, reloads-append_none, no_switch}
use react_native_pushy.Activation.Release.{run-IsQuiet, reset_done-IsQuiet}

abbrev pub is_only_settling : Event → Bool
is_only_settling (settles k outcome) = true
is_only_settling (fires k) = true
is_only_settling _ = false

unfoldable pub no_calls : List Event → Bool
no_calls [] = true
no_calls (e ∷ es) = is_only_settling e && no_calls es

-- Events without a call after which no switch is in progress.
abbrev pub Released : Env → World → Type 0
Released env w =
    (es : List Event) × (no_calls es ≡ true) × ((run env es w).state.applying_update ≡ false)

timer_at :
    (t g : ℕ) (timers : List Timer)
    → has_timer t g timers ≡ true
    → (k : ℕ) × (nth_of k timers ≡ some (record { id = t; generation = g }))
unfolding has_timer nth_of
timer_at t g [] h = ground arith
timer_at t g (timer ∷ timers) h = elim (Bool-cases (beq t timer.id && beq g timer.generation)) [
  | inl e ↦ (0, ground arith)
  | inr e ↦ let found = timer_at t g timers (ground arith) in (suc found.0, found.1)
]

owner_at :
    (g : ℕ) (xs : List Waiting)
    → count_if (has_generation g) xs ≡ 1
    → (k : ℕ) × (x : Waiting) × (nth_of k xs ≡ some x) × (has_generation g x ≡ true)
unfolding count_if nth_of
owner_at g [] h = ground arith
owner_at g (x ∷ xs) h = elim (Bool-cases (has_generation g x)) [
  | inl e ↦ (0, x, refl, e)
  | inr e ↦ let found = owner_at g xs (ground arith) in (suc found.0, found.1, found.2, found.3)
]

finish-off :
    (g : ℕ) (w : World)
    → beq g w.state.generation ≡ true
    → (finish g w).state.applying_update ≡ false
unfolding finish finish_applying_update owns_applying_update
finish-off g w h = ground arith

owns-current :
    (g : ℕ) (w : World)
    → beq g w.state.generation ≡ true
    → w.state.applying_update ≡ true
    → owns_applying_update g w.state ≡ true
unfolding owns_applying_update
owns-current g w h on = ground arith

owner-Released :
    (env : Env) (w : World) (k : ℕ) (x : Waiting)
    → nth_of k w.waiting ≡ some x
    → has_generation w.state.generation x ≡ true
    → w.state.applying_update ≡ true
    → Released env w
unfolding run step settle resume no_calls after_switch_hook after_switch_reload nth_of without_nth
    finish
owner-Released env w k (switch_hook g hash) at_k owner on =
    elim (Bool-cases env.has_before_reload) [
      | inl e ↦ (
        settles k rejected ∷ [],
        refl,
        rw (at_k, e) (finish-off g (record w { waiting = without_nth k w.waiting }) owner),
      )
      | inr e ↦ (
        settles k (resolved true) ∷ settles 0 rejected ∷ [],
        refl,
        rw (at_k, e, owns-current g w owner on)
            (finish-off g (record w { waiting = without_nth k w.waiting }) owner),
      )
    ]
owner-Released env w k (switch_reload g hash) at_k owner on = (
  settles k rejected ∷ [],
  refl,
  rw at_k (finish-off g (record w { waiting = without_nth k w.waiting }) owner),
)
owner-Released env w k _ at_k owner on = ground arith

armed-Released :
    (env : Env) (w : World) (t : ℕ)
    → w.state.watchdog ≡ some t
    → has_timer t w.state.generation w.timers ≡ true
    → w.state.applying_update ≡ true
    → Released env w
unfolding run step fire timer_callback owns_applying_update no_calls
armed-Released env w t e timed on =
    let found = timer_at t w.state.generation w.timers timed in
    (fires found.0 ∷ [], refl, rw found.1 (ground arith))

IsOwned-Released :
    (env : Env) (w : World) (watchdog : Option ℕ)
    → w.state.watchdog ≡ watchdog
    → IsOwned w
    → w.state.applying_update ≡ true
    → Released env w
IsOwned-Released env w none e (below, owners, timed, marks) on =
    let found = owner_at w.state.generation w.waiting (ground arith) in
    owner-Released env w found.0 found.1 found.2 found.3 on
IsOwned-Released env w (some t) e (below, owners, timed, marks) on =
    armed-Released env w t e (ground arith) on

-- Wherever a switch is in progress, in every order of events, it can end without another call: some
-- awaited promises or a timer of it are left whose settling or callback clears the flag.
pub run-Released :
    (env : Env) (es : List Event)
    → (run env es init).state.applying_update ≡ true
    → Released env (run env es init)
run-Released env es on =
    IsOwned-Released env (run env es init) (run env es init).state.watchdog refl
      (run-init-IsOwned env es) on

-- Once the native reset is done, and until switchVersion is called again, nothing that still settles
-- or calls back, in whatever order, asks for a reload or leaves a switch in progress.
pub run-after_reset :
    (env : Env) (restart b : Bool) (w : World) (es : List Event)
    → no_switch es ≡ true
    → ((run env es (after_reset env restart (resolved b) w)).state.applying_update ≡ false)
      × (reloads (run env es (after_reset env restart (resolved b) w)).actions ≡ reloads w.actions)
run-after_reset env restart b w es none_called =
    run-IsQuiet env es (reloads w.actions) (after_reset env restart (resolved b) w) none_called
      (reset_done-IsQuiet env restart b (reloads w.actions) w refl)

-- A waiting switch of another generation than the current one.
abbrev pub is_superseded : ℕ → Waiting → Bool
is_superseded g (switch_hook h hash) = not (beq h g)
is_superseded g (switch_reload h hash) = not (beq h g)
is_superseded g _ = false

-- The parts of the world that a switch works on.
abbrev pub SameSwitch : World → World → Type 0
SameSwitch v w =
    (v.state ≡ w.state) × (v.timers ≡ w.timers) × (reloads v.actions ≡ reloads w.actions)

not-owner :
    (g : ℕ) (w : World)
    → not (beq g w.state.generation) ≡ true
    → owns_applying_update g w.state ≡ false
unfolding owns_applying_update
not-owner g w h = ground arith

finish-SameSwitch :
    (g : ℕ) (w : World) → not (beq g w.state.generation) ≡ true → (finish g w).state ≡ w.state
unfolding finish finish_applying_update
finish-SameSwitch g w h = rw (not-owner g w h) refl

after_switch_hook-SameSwitch :
    (g : ℕ) (hash : String) (answer : Option Bool) (w : World)
    → not (beq g w.state.generation) ≡ true
    → SameSwitch (after_switch_hook g hash answer w) w
unfolding after_switch_hook finish reloads
after_switch_hook-SameSwitch g hash none w old =
    (finish-SameSwitch g w old, refl, reloads-append_none w.actions _ (reloads w.actions) refl refl)
after_switch_hook-SameSwitch g hash (some false) w old =
    (finish-SameSwitch g w old, refl, reloads-append_none w.actions _ (reloads w.actions) refl refl)
after_switch_hook-SameSwitch g hash (some true) w old =
    rw (not-owner g w old)
      (refl, refl, reloads-append_none w.actions _ (reloads w.actions) refl refl)

resume-SameSwitch :
    (env : Env) (x : Waiting) (outcome : Outcome) (w : World)
    → is_superseded w.state.generation x ≡ true
    → SameSwitch (resume env x outcome w) w
unfolding resume after_switch_reload arm_reload_watchdog finish reloads
resume-SameSwitch env (switch_hook g hash) outcome w old =
    after_switch_hook-SameSwitch g hash (proceeds env outcome) w old
resume-SameSwitch env (switch_reload g hash) rejected w old =
    (finish-SameSwitch g w old, refl, reloads-append_none w.actions _ (reloads w.actions) refl refl)
resume-SameSwitch env (switch_reload g hash) (resolved b) w old =
    rw (not-owner g w old)
      (refl, refl, reloads-append_none w.actions _ (reloads w.actions) refl refl)
resume-SameSwitch env _ outcome w old = ground arith

-- However the promises of a switch settle that a reset or a newer switch superseded, the state and
-- the timers stay as they are, and no reload is asked for.
pub settle-SameSwitch :
    (env : Env) (k : ℕ) (x : Waiting) (outcome : Outcome) (w : World)
    → nth_of k w.waiting ≡ some x
    → is_superseded w.state.generation x ≡ true
    → SameSwitch (settle env k outcome w) w
unfolding settle
settle-SameSwitch env k x outcome w at_k old =
    rw at_k (resume-SameSwitch env x outcome (record w { waiting = without_nth k w.waiting }) old)
