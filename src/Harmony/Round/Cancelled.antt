-- ===== src/Harmony/Round/Cancelled.antt =====
-- What a reset or a new configuration does to the hosts of a round that is at work
-- (harmony/pushy/src/main/ets/SyncCoordinator.ts).
use react_native_pushy.Common.{
  ℕ, ◌+◌, String, Bool, true, not, ◌&&◌, ◌||◌, ◌==◌, Option, some, List, [], ◌∷◌, ◌≡◌, refl, arith,
  Bool-cases, inl, inr,
}
use react_native_pushy.Common.Pool.{nth_of, without_nth}
use react_native_pushy.Harmony.Round.{
  Result, deferred, done, Host, cancelled, World, same_generation, Event, schedules, timer_fires,
  begins, marks, resets, prepares, finishes, resumes, expires, configures, js_completes, answer_of,
  resume, configure, step, run,
}
use react_native_pushy.Harmony.Round.Behind.{
  IsBehind, Lags-suc, differs-generation, IsBehind-weaken, begin_round-IsBehind, end_round-IsBehind,
  mark_incomplete-IsBehind, expire-IsBehind, resume-IsBehind, prepare_bundle_native-IsBehind,
  fire_timer-IsBehind, schedule_native_sync-IsBehind,
}

module _ (rejection : String → Option Result) (equivalent : String → String → Bool) where
  resets-IsBehind :
      (d : ℕ) (w : World)
      → IsBehind d w
      → IsBehind (d + 1) (record w { reset_generation = w.reset_generation + 1 })
  resets-IsBehind d w h = record {
    started = h.started;
    lags = Lags-suc d w.round_generation w.reset_generation h.lags;
  }

  -- A configuration that replaces the stored one.
  abbrev pub is_replaced : String → World → Bool
  is_replaced config w =
      (w.config == "") || (not (w.config == config) && not (equivalent w.config config))

  configure-replaced :
      (d : ℕ) (config : String) (w : World)
      → is_replaced config w ≡ true
      → IsBehind d w
      → IsBehind (d + 1) (configure rejection equivalent config w)
  configure-replaced d config w e h = simp e (record {
    started = h.started;
    lags = Lags-suc d w.round_generation w.reset_generation h.lags;
  })

  configure-IsBehind :
      (d : ℕ) (config : String) (w : World)
      → IsBehind d w
      → IsBehind d (configure rejection equivalent config w)
  configure-IsBehind d config w h = elim (Bool-cases (is_replaced config w)) [
    | inl e ↦
        IsBehind-weaken d (configure rejection equivalent config w)
          (configure-replaced d config w e h)
    | inr e ↦ simp e h
  ]

  step-IsBehind :
      (d : ℕ) (e : Event) (w : World) → IsBehind d w → IsBehind d (step rejection equivalent e w)
  unfolding step
  step-IsBehind d (schedules rollback) w h =
      schedule_native_sync-IsBehind rejection equivalent d rollback w h
  step-IsBehind d timer_fires w h = fire_timer-IsBehind rejection equivalent d w.timer w h
  step-IsBehind d (prepares bounded) w h =
      prepare_bundle_native-IsBehind rejection equivalent d bounded w h
  step-IsBehind d begins w h = begin_round-IsBehind d w.task w refl h
  step-IsBehind d marks w h = mark_incomplete-IsBehind d w.task w h
  step-IsBehind d (finishes finish) w h = end_round-IsBehind d w.task finish w h
  step-IsBehind d (resumes k) w h =
      resume-IsBehind rejection equivalent d w.task (nth_of k w.waiting) w
        (record w { waiting = without_nth k w.waiting }) h
        (record { started = h.started; lags = h.lags })
  step-IsBehind d (expires k) w h =
      expire-IsBehind d w.task (nth_of k w.waiting) w
        (record w { waiting = without_nth k w.waiting }) h
        (record { started = h.started; lags = h.lags })
  step-IsBehind d resets w h = IsBehind-weaken d _ (resets-IsBehind d w h)
  step-IsBehind d (configures config) w h = configure-IsBehind d config w h
  step-IsBehind d (js_completes config) w h = record { started = h.started; lags = h.lags }

  run-IsBehind :
      (d : ℕ) (es : List Event) (w : World)
      → IsBehind d w
      → IsBehind d (run rejection equivalent es w)
  unfolding run
  run-IsBehind d [] w h = h
  run-IsBehind d (e ∷ es) w h =
      run-IsBehind d es (step rejection equivalent e w) (step-IsBehind d e w h)

  begins-IsBehind :
      (w : World) → w.task ≡ deferred → IsBehind 0 (step rejection equivalent begins w)
  unfolding step
  begins-IsBehind w e = rw e (record { started = refl; lags = omega arith })

  -- A reset, or a configuration that replaces the stored one.
  abbrev pub Disturbs : Event → World → Type 0
  Disturbs resets w = Unit
  Disturbs (configures config) w = is_replaced config w ≡ true
  Disturbs _ w = ⊥

  disturb-IsBehind :
      (e : Event) (w : World)
      → Disturbs e w
      → IsBehind 0 w
      → IsBehind 1 (step rejection equivalent e w)
  unfolding step
  disturb-IsBehind resets w t h = resets-IsBehind 0 w h
  disturb-IsBehind (configures config) w t h = configure-replaced 0 config w t h
  disturb-IsBehind (schedules _) w t h = elim t [ ]
  disturb-IsBehind timer_fires w t h = elim t [ ]
  disturb-IsBehind begins w t h = elim t [ ]
  disturb-IsBehind marks w t h = elim t [ ]
  disturb-IsBehind (prepares _) w t h = elim t [ ]
  disturb-IsBehind (finishes _) w t h = elim t [ ]
  disturb-IsBehind (resumes _) w t h = elim t [ ]
  disturb-IsBehind (expires _) w t h = elim t [ ]
  disturb-IsBehind (js_completes _) w t h = elim t [ ]

  answer_of-IsBehind :
      (x : Host) (r : Result) (w : World)
      → IsBehind 1 w
      → (reason : String) × (answer_of rejection equivalent x r w ≡ cancelled reason)
  unfolding answer_of
  answer_of-IsBehind x r w h =
      let replaced =
        not (same_generation w.round_config_generation w.config_generation)
        || (not (equivalent x.config w.round_config) || not (equivalent x.config w.config)) in
      elim (Bool-cases replaced) [
        | inl e ↦ ("config_changed", simp e refl)
        | inr e ↦ (
          "reset",
          simp (e, differs-generation w.round_generation w.reset_generation h.lags) refl,
        )
      ]

  -- Once a round is at work, a reset or a configuration that replaces the stored one cancels it for its hosts:
  -- whatever else happens before and after, a host that goes on when the round has settled is told that
  -- it was cancelled, never its result.
  pub run-cancelled :
      (before after : List Event) (o : Event) (w : World) (k : ℕ) (x : Host) (r : Result)
      → w.task ≡ deferred
      → let middle = run rejection equivalent before (step rejection equivalent begins w) in
        let later = run rejection equivalent after (step rejection equivalent o middle) in
        Disturbs o middle
        → nth_of k later.waiting ≡ some x
        → later.task ≡ done r
        → (reason : String) × ((step rejection equivalent (resumes k) later).answers
            ≡ (x.id, cancelled reason) ∷ later.answers)
  unfolding step resume
  run-cancelled before after o w k x r e t p q =
      let middle = run rejection equivalent before (step rejection equivalent begins w) in
      let later = run rejection equivalent after (step rejection equivalent o middle) in
      let behind =
        run-IsBehind 1 after (step rejection equivalent o middle)
          (disturb-IsBehind o middle t (run-IsBehind 0 before _ (begins-IsBehind w e))) in
      let (reason, told) =
        answer_of-IsBehind x r (record later { waiting = without_nth k later.waiting })
          (record { started = behind.started; lags = behind.lags }) in
      (reason, simp (p, q, told) refl)
