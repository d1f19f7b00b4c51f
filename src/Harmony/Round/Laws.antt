-- ===== src/Harmony/Round/Laws.antt =====
-- How often a process runs the native round, and what its hosts are told
-- (harmony/pushy/src/main/ets/SyncCoordinator.ts).
use mathlib.Core.Bool.{false≢true}
use react_native_pushy.Common.{
  ℕ, ◌+◌, String, Bool, true, false, not, ◌&&◌, ◌||◌, ◌==◌, if◌then◌else◌, Option, none, some, List,
  [], ◌∷◌, ◌≡◌, refl, sym, subst, ap, ◌∙◌, Bool-cases, inl, inr,
}
use react_native_pushy.Common.Pool.{nth_of, without_nth}
use react_native_pushy.Harmony.Round.{
  Result, Finish, Task, absent, deferred, running, done, Host, Answer, rejected, timed_out,
  cancelled, prepared, World, init, schedule_native_sync, run_gate, answer, begin_round,
  mark_incomplete, outcome_of, end_round, expire, time_out, same_generation, Event, schedules,
  timer_fires, begins, marks, resets, prepares, finishes, resumes, expires, configures,
  js_completes, start_behind, start_native_round, prepare_behind, prepare_bundle_native, answer_of,
  resume, has_js_round, fire_timer, configure, step, run, result_of,
}

abbrev pub begun : Task → ℕ
begun absent = 0
begun deferred = 0
begun running = 1
begun (done r) = 1

abbrev pub is_absent : Task → Bool
is_absent absent = true
is_absent _ = false

abbrev pub is_done : Task → Bool
is_done (done r) = true
is_done _ = false

-- A host that is told of a preparation is told what the round has come to.
abbrev pub Agrees : Task → Answer → Type 0
Agrees task (prepared r) = task ≡ done r
Agrees task (rejected r) = Unit
Agrees task timed_out = Unit
Agrees task (cancelled reason) = Unit

abbrev pub AllAgree : Task → List (ℕ × Answer) → Type 0
AllAgree task [] = Unit
AllAgree task ((id, a) ∷ answers) = Agrees task a × AllAgree task answers

-- The round was run as often as its promise says, and a host waits only where there is one.
pub record IsOnce (w : World) : Type 0 where
  pub once : w.started ≡ begun w.task
  pub agree : AllAgree w.task w.answers
  pub awaited : is_absent w.task ≡ true → w.waiting ≡ []

IsOnce-if : (b : Bool) (x y : World) → IsOnce x → IsOnce y → IsOnce (if b then x else y)
IsOnce-if true x y h k = h
IsOnce-if false x y h k = k

Agrees-before : (t u : Task) (a : Answer) → is_done t ≡ false → Agrees t a → Agrees u a
Agrees-before t u (prepared r) h e = absurd (false≢true (sym h ∙ ap is_done e))
Agrees-before t u (rejected r) h e = tt
Agrees-before t u timed_out h e = tt
Agrees-before t u (cancelled reason) h e = tt

AllAgree-before :
    (t u : Task) (earlier : List (ℕ × Answer))
    → is_done t ≡ false
    → AllAgree t earlier
    → AllAgree u earlier
AllAgree-before t u [] h p = tt
AllAgree-before t u ((id, a) ∷ earlier) h (p, ps) =
    (Agrees-before t u a h p, AllAgree-before t u earlier h ps)

begin_round-IsOnce : (t : Task) (w : World) → w.task ≡ t → IsOnce w → IsOnce (begin_round t w)
begin_round-IsOnce absent w e h = h
begin_round-IsOnce running w e h = h
begin_round-IsOnce (done r) w e h = h
begin_round-IsOnce deferred w e h = record {
  once = ap (λ n. n + 1) (h.once ∙ ap begun e);
  agree = AllAgree-before w.task running w.answers (ap is_done e) h.agree;
  awaited = λ a. absurd (false≢true a);
}

end_round-IsOnce :
    (t : Task) (finish : Option Finish) (w : World)
    → w.task ≡ t
    → IsOnce w
    → IsOnce (end_round t finish w)
end_round-IsOnce absent finish w e h = h
end_round-IsOnce deferred finish w e h = h
end_round-IsOnce (done r) finish w e h = h
end_round-IsOnce running finish w e h = record {
  once = h.once ∙ ap begun e;
  agree = AllAgree-before w.task (done (outcome_of finish)) w.answers (ap is_done e) h.agree;
  awaited = λ a. absurd (false≢true a);
}

mark_incomplete-IsOnce : (t : Task) (w : World) → IsOnce w → IsOnce (mark_incomplete t w)
mark_incomplete-IsOnce absent w h = h
mark_incomplete-IsOnce deferred w h = h
mark_incomplete-IsOnce (done r) w h = h
mark_incomplete-IsOnce running w h = record { once = h.once; agree = h.agree; awaited = h.awaited }

answer-IsOnce :
    (id : ℕ) (a : Answer) (w : World) → Agrees w.task a → IsOnce w → IsOnce (answer id a w)
answer-IsOnce id a w g h = record { once = h.once; agree = (g, h.agree); awaited = h.awaited }

fewer-IsOnce :
    (k : ℕ) (w : World) → IsOnce w → IsOnce (record w { waiting = without_nth k w.waiting })
unfolding without_nth
fewer-IsOnce k w h = record {
  once = h.once;
  agree = h.agree;
  awaited = λ a. ap (without_nth k) (h.awaited a);
}

time_out-IsOnce :
    (x : Host) (before w : World) → IsOnce before → IsOnce w → IsOnce (time_out x before w)
time_out-IsOnce x before w b h =
    IsOnce-if x.bounded (answer x.id timed_out w) before (answer-IsOnce x.id timed_out w tt h) b

expire-IsOnce :
    (t : Task) (host : Option Host) (before w : World)
    → IsOnce before
    → IsOnce w
    → IsOnce (expire t host before w)
expire-IsOnce (done r) host before w b h = b
expire-IsOnce absent none before w b h = b
expire-IsOnce deferred none before w b h = b
expire-IsOnce running none before w b h = b
expire-IsOnce absent (some x) before w b h = time_out-IsOnce x before w b h
expire-IsOnce deferred (some x) before w b h = time_out-IsOnce x before w b h
expire-IsOnce running (some x) before w b h = time_out-IsOnce x before w b h

-- A gate that was passed has a round behind it.
gate-IsOnce :
    (t : Task) (w : World) → w.task ≡ t → IsOnce w → IsOnce (record w { task = run_gate t })
gate-IsOnce absent w e h = record {
  once = h.once ∙ ap begun e;
  agree = AllAgree-before w.task deferred w.answers (ap is_done e) h.agree;
  awaited = λ a. absurd (false≢true a);
}
gate-IsOnce deferred w e h = subst (λ t. IsOnce (record w { task = t })) e h
gate-IsOnce running w e h = subst (λ t. IsOnce (record w { task = t })) e h
gate-IsOnce (done r) w e h = subst (λ t. IsOnce (record w { task = t })) e h

gate-waits : (t : Task) → is_absent (run_gate t) ≡ false
gate-waits absent = refl
gate-waits deferred = refl
gate-waits running = refl
gate-waits (done r) = refl

module _ (rejection : String → Option Result) (equivalent : String → String → Bool) where
  Agrees-answer_of :
      (x : Host) (r : Result) (w : World)
      → w.task ≡ done r
      → Agrees w.task (answer_of rejection equivalent x r w)
  unfolding answer_of
  Agrees-answer_of x r w e =
      let replaced =
        not (same_generation w.round_config_generation w.config_generation)
        || (not (equivalent x.config w.round_config) || not (equivalent x.config w.config)) in
      elim (Bool-cases replaced) [
        | inl h ↦ simp h tt
        | inr h ↦ elim (Bool-cases (same_generation w.round_generation w.reset_generation)) [
          | inl g ↦ simp (h, g) e
          | inr g ↦ simp (h, g) tt
        ]
      ]

  resume-IsOnce :
      (t : Task) (host : Option Host) (before w : World)
      → w.task ≡ t
      → IsOnce before
      → IsOnce w
      → IsOnce (resume rejection equivalent t host before w)
  unfolding resume
  resume-IsOnce absent host before w e b h = b
  resume-IsOnce deferred host before w e b h = b
  resume-IsOnce running host before w e b h = b
  resume-IsOnce (done r) none before w e b h = b
  resume-IsOnce (done r) (some x) before w e b h =
      answer-IsOnce x.id (answer_of rejection equivalent x r w) w (Agrees-answer_of x r w e) h

  start_behind-IsOnce :
      (verdict : Option Result) (w : World)
      → IsOnce w
      → IsOnce (start_behind rejection equivalent verdict w)
  start_behind-IsOnce (some r) w h = h
  start_behind-IsOnce none w h = gate-IsOnce w.task w refl h

  prepare_behind-IsOnce :
      (verdict : Option Result) (bounded : Bool) (id : ℕ) (w : World)
      → rejection w.config ≡ verdict
      → IsOnce w
      → IsOnce (prepare_behind rejection equivalent verdict bounded id w)
  unfolding start_native_round
  prepare_behind-IsOnce (some r) bounded id w e h = answer-IsOnce id (rejected r) w tt h
  prepare_behind-IsOnce none bounded id w e h =
      let started = gate-IsOnce w.task w refl h in
      rw e (record {
        once = started.once;
        agree = started.agree;
        awaited = λ a. absurd (false≢true (sym (gate-waits w.task) ∙ a));
      })

  start_native_round-IsOnce :
      (w : World) → IsOnce w → IsOnce (start_native_round rejection equivalent w)
  unfolding start_native_round
  start_native_round-IsOnce w h = start_behind-IsOnce (rejection w.config) w h

  prepare_bundle_native-IsOnce :
      (bounded : Bool) (w : World)
      → IsOnce w
      → IsOnce (prepare_bundle_native rejection equivalent bounded w)
  unfolding prepare_bundle_native
  prepare_bundle_native-IsOnce bounded w h =
      let called = record w { next_host = w.next_host + 1 } in
      let same : IsOnce called = record { once = h.once; agree = h.agree; awaited = h.awaited } in
      IsOnce-if (not w.scheduled)
        (answer w.next_host (rejected (result_of "skipped" "not_initialized")) called)
        (prepare_behind rejection equivalent (rejection w.config) bounded w.next_host called)
        (answer-IsOnce w.next_host (rejected (result_of "skipped" "not_initialized")) called tt
          same)
        (prepare_behind-IsOnce (rejection w.config) bounded w.next_host called refl same)

  fire_timer-IsOnce :
      (timer : Option ℕ) (w : World) → IsOnce w → IsOnce (fire_timer rejection equivalent timer w)
  unfolding fire_timer
  fire_timer-IsOnce none w h = h
  fire_timer-IsOnce (some delay) w h =
      let off = record w { timer = none } in
      let same : IsOnce off = record { once = h.once; agree = h.agree; awaited = h.awaited } in
      IsOnce-if (has_js_round rejection equivalent w) off
        (start_native_round rejection equivalent off) same (start_native_round-IsOnce off same)

  schedule_native_sync-IsOnce :
      (rollback : String) (w : World) → IsOnce w → IsOnce (schedule_native_sync rollback w)
  unfolding schedule_native_sync
  schedule_native_sync-IsOnce rollback w h = elim (Bool-cases w.scheduled) [
    | inl e ↦ simp e h
    | inr e ↦ simp e (record { once = h.once; agree = h.agree; awaited = h.awaited })
  ]

  configure-IsOnce :
      (config : String) (w : World) → IsOnce w → IsOnce (configure rejection equivalent config w)
  configure-IsOnce config w h =
      let changed =
        (w.config == "") || (not (w.config == config) && not (equivalent w.config config)) in
      elim (Bool-cases changed) [
        | inl e ↦ simp e (record { once = h.once; agree = h.agree; awaited = h.awaited })
        | inr e ↦ simp e h
      ]

  step-IsOnce : (e : Event) (w : World) → IsOnce w → IsOnce (step rejection equivalent e w)
  unfolding step
  step-IsOnce (schedules rollback) w h = schedule_native_sync-IsOnce rollback w h
  step-IsOnce timer_fires w h = fire_timer-IsOnce w.timer w h
  step-IsOnce (prepares bounded) w h = prepare_bundle_native-IsOnce bounded w h
  step-IsOnce begins w h = begin_round-IsOnce w.task w refl h
  step-IsOnce marks w h = mark_incomplete-IsOnce w.task w h
  step-IsOnce (finishes finish) w h = end_round-IsOnce w.task finish w refl h
  step-IsOnce (resumes k) w h =
      resume-IsOnce w.task (nth_of k w.waiting) w (record w { waiting = without_nth k w.waiting })
        refl h (fewer-IsOnce k w h)
  step-IsOnce (expires k) w h =
      expire-IsOnce w.task (nth_of k w.waiting) w (record w { waiting = without_nth k w.waiting }) h
        (fewer-IsOnce k w h)
  step-IsOnce resets w h = record { once = h.once; agree = h.agree; awaited = h.awaited }
  step-IsOnce (configures config) w h = configure-IsOnce config w h
  step-IsOnce (js_completes config) w h = record {
    once = h.once;
    agree = h.agree;
    awaited = h.awaited;
  }

  run-IsOnce : (es : List Event) (w : World) → IsOnce w → IsOnce (run rejection equivalent es w)
  unfolding run
  run-IsOnce [] w h = h
  run-IsOnce (e ∷ es) w h = run-IsOnce es (step rejection equivalent e w) (step-IsOnce e w h)

  -- Over every order of launches, timers, hosts, resets and configurations a process runs the native round
  -- at most once, namely as often as its promise has begun; every host that is told of a preparation is
  -- told the one result that this round came to; and no host waits where no round was asked for.
  pub run-init-IsOnce :
      (es : List Event) (config : String) (breadcrumb : Bool)
      → IsOnce (run rejection equivalent es (init config breadcrumb))
  unfolding init
  run-init-IsOnce es config breadcrumb =
      run-IsOnce es (init config breadcrumb)
        (record { once = refl; agree = tt; awaited = λ a. refl })
