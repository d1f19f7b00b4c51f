-- ===== src/Endpoint/Race/Progress.antt =====
-- Whole runs of the race over the endpoints (src/endpoint.ts).
use react_native_pushy.Common.{ℕ, suc, ◌+◌, ◌<◌, ◌≤◌, String, true, false}
use react_native_pushy.Common.{Option, none, some, List, [], ◌∷◌, if◌then◌else◌, contains}
use react_native_pushy.Common.{
  length, length-append, ◌≡◌, refl, sym, subst, ap, arith, inl, inr, ◌∙◌, eq_refl,
}
use react_native_pushy.Endpoint.Race.{
  EndpointAttemptSuccess, Race, remove_first, finish_race, launch_from, launch_next, on_success,
  with_failure, after_failure, leave, on_failure, on_timer, start, Event, timer, succeeds, fails,
  step, run,
}
use react_native_pushy.Endpoint.Race.Laws.{
  IsPossible, IsOpen, IsClosed, IsValid, start-IsOpen, on_timer-IsOpen, on_success-IsClosed,
  on_failure-IsValid,
}

module _ {A : Type 0} where
  -- Every event of the schedule can happen when it arrives.
  abbrev pub IsSchedule : List (Event A) → Race A → Type 0
  IsSchedule [] s = Unit
  IsSchedule (e ∷ es) s = IsPossible e s × IsSchedule es (step e s)

  -- How many requests the schedule settles.
  abbrev pub settles : List (Event A) → ℕ
  settles [] = 0
  settles (timer ∷ es) = settles es
  settles (succeeds endpoint value ∷ es) = suc (settles es)
  settles (fails endpoint error ∷ es) = suc (settles es)

  finish_of_settled :
      (success : Option (EndpointAttemptSuccess A)) (s : Race A)
      → s.settled ≡ true
      → finish_race success s ≡ s
  unfolding finish_race
  finish_of_settled success s h = simp h

  module _ (total : ℕ) where
    keep_IsClosed :
        (s s' : Race A)
        → s'.settled ≡ s.settled
        → s'.hedge_timer ≡ s.hedge_timer
        → s'.resolved ≡ s.resolved
        → IsClosed total s
        → IsClosed total s'
    keep_IsClosed s s' settled timer_off resolved c = record {
      closed = settled ∙ c.closed;
      disarmed = timer_off ∙ c.disarmed;
      result = c.result;
      resolved = resolved ∙ c.resolved;
      all_failed = c.all_failed;
    }

    step_of_IsClosed :
        (e : Event A) (s : Race A)
        → IsClosed total s
        → IsClosed total (step e s) × ((step e s).resolved ≡ s.resolved)
    unfolding step on_timer on_success on_failure
    step_of_IsClosed timer s c =
        subst
          (λ b.
            IsClosed total (if b then launch_next s else s)
            × ((if b then launch_next s else s).resolved ≡ s.resolved))
          (sym c.disarmed) (c, refl)
    step_of_IsClosed (succeeds endpoint value) s c =
        let s' : Race A = record s {
          in_flight = remove_first endpoint s.in_flight;
          controllers = remove_first endpoint s.controllers;
        } in
        subst (λ (t : Race A). IsClosed total t × (t.resolved ≡ s.resolved))
          (sym
            (finish_of_settled (some (record { endpoint = endpoint; value = value })) s' c.closed))
          (keep_IsClosed s s' refl refl refl c, refl)
    step_of_IsClosed (fails endpoint error) s c =
        let s' = leave endpoint s in
        subst
          (λ b.
            IsClosed total (if b then s' else after_failure (with_failure endpoint error s'))
            × ((if b then s' else after_failure (with_failure endpoint error s')).resolved
                ≡ s.resolved))
          (sym c.closed) (keep_IsClosed s s' refl refl refl c, refl)

    step-IsValid :
        (e : Event A) (s : Race A) → IsPossible e s → IsValid total s → IsValid total (step e s)
    step-IsValid e s p (inr c) = inr (step_of_IsClosed e s c).0
    step-IsValid timer s p (inl o) = unfold step in inl (on_timer-IsOpen total s o)
    step-IsValid (succeeds endpoint value) s p (inl o) =
        unfold step in inr (on_success-IsClosed total endpoint value s o)
    step-IsValid (fails endpoint error) s p (inl o) =
        unfold step in on_failure-IsValid total endpoint error s p o

    run-IsValid :
        (es : List (Event A)) (s : Race A)
        → IsSchedule es s
        → IsValid total s
        → IsValid total (run es s)
    unfolding run
    run-IsValid [] s p v = v
    run-IsValid (e ∷ es) s (p, ps) v = run-IsValid es (step e s) ps (step-IsValid e s p v)

    run_of_IsClosed :
        (es : List (Event A)) (s : Race A)
        → IsClosed total s
        → IsClosed total (run es s) × ((run es s).resolved ≡ s.resolved)
    unfolding run
    run_of_IsClosed [] s c = (c, refl)
    run_of_IsClosed (e ∷ es) s c =
        let (c', same) = step_of_IsClosed e s c in
        let (c'', later) = run_of_IsClosed es (step e s) c' in (c'', later ∙ same)

    failures-launch_from :
        (rest : List String) (s : Race A) → (launch_from rest s).failures ≡ s.failures
    failures-launch_from [] s = refl
    failures-launch_from (x ∷ rest) s = ground arith

    failures-on_timer : (s : Race A) → (on_timer s).failures ≡ s.failures
    unfolding on_timer launch_next
    failures-on_timer s = ground (arith, failures-launch_from s.remaining s)

    failures-finish_race :
        (success : Option (EndpointAttemptSuccess A)) (s : Race A)
        → (finish_race success s).failures ≡ s.failures
    unfolding finish_race
    failures-finish_race success s = ground arith

    failures-after_failure : (s : Race A) → (after_failure s).failures ≡ s.failures
    unfolding after_failure launch_next
    failures-after_failure s =
        ground (arith, failures-launch_from s.remaining s, failures-finish_race none s)

    failures-on_failure :
        (endpoint error : String) (s : Race A)
        → s.settled ≡ false
        → length (on_failure endpoint error s).failures ≡ suc (length s.failures)
    unfolding on_failure
    failures-on_failure endpoint error s running =
        subst
          (λ b.
            length
              (if b
                then leave endpoint s
                else after_failure (with_failure endpoint error (leave endpoint s))).failures
            ≡ suc (length s.failures))
          (sym running)
          (ap length (failures-after_failure (with_failure endpoint error (leave endpoint s)))
            ∙ omega (
              arith,
              length-append s.failures (record { endpoint = endpoint; error = error } ∷ []),
            ))

    run_ends :
        (es : List (Event A)) (s : Race A)
        → IsValid total s
        → IsSchedule es s
        → total ≤ length s.failures + settles es
        → IsClosed total (run es s)
    unfolding run
    run_ends es s (inr c) p h = (run_of_IsClosed es s c).0
    run_ends [] s (inl o) p h = absurd (omega (arith, o.conserved, o.counted, o.alive))
    run_ends (timer ∷ es) s (inl o) (p, ps) h =
        run_ends es (step timer s) (step-IsValid timer s p (inl o)) ps
          (unfold step in omega (arith, ap length (failures-on_timer s)))
    run_ends (succeeds endpoint value ∷ es) s (inl o) (p, ps) h =
        (run_of_IsClosed es (step (succeeds endpoint value) s)
          (unfold step in on_success-IsClosed total endpoint value s o)).0
    run_ends (fails endpoint error ∷ es) s (inl o) (p, ps) h =
        run_ends es (step (fails endpoint error) s)
          (step-IsValid (fails endpoint error) s p (inl o)) ps
          (unfold step in omega (arith, failures-on_failure endpoint error s o.running))

in_flight_one : (xs : List String) → 0 < length xs → (e : String) × (contains e xs ≡ true)
in_flight_one [] h = absurd (omega arith)
in_flight_one (x ∷ xs) h = (x, rw (eq_refl x) refl)

-- The race stays valid, and while it is open a request is in flight.
pub run_invariant :
    {A : Type 0} (e : String) (rest : List String) (es : List (Event A))
    → IsSchedule es (start (e ∷ rest))
    → IsValid (length (e ∷ rest)) (run es (start (e ∷ rest)))
      × (IsOpen (length (e ∷ rest)) (run es (start (e ∷ rest)))
          → (x : String) × (contains x (run es (start (e ∷ rest))).in_flight ≡ true))
run_invariant e rest es p = (
  run-IsValid (length (e ∷ rest)) es (start (e ∷ rest)) p
      (inl (start-IsOpen (length (e ∷ rest)) e rest refl)),
  λ o. in_flight_one _ (omega (arith, o.counted, o.alive)),
)

-- The race ends: a schedule that settles as many requests as there are endpoints leaves it settled
-- with a result, whatever else it holds.
pub run_terminates :
    {A : Type 0} (e : String) (rest : List String) (es : List (Event A))
    → IsSchedule es (start (e ∷ rest))
    → length (e ∷ rest) ≤ settles es
    → IsClosed (length (e ∷ rest)) (run es (start (e ∷ rest)))
run_terminates e rest es p enough =
    run_ends (length (e ∷ rest)) es (start (e ∷ rest))
      (inl (start-IsOpen (length (e ∷ rest)) e rest refl)) p (omega arith)

-- The first result is final: after it no event changes what the promise resolved to.
run_final :
    {A : Type 0} (total : ℕ) (es : List (Event A)) (s : Race A)
    → IsClosed total s
    → (run es s).resolved ≡ s.resolved
run_final total es s c = (run_of_IsClosed total es s c).1
