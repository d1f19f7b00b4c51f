-- ===== src/Endpoint/Race/Cover.antt =====
-- The failures of a race (src/endpoint.ts) against its candidates.
use react_native_pushy.Common.{ℕ, ◌+◌, String, true, false}
use react_native_pushy.Common.{
  Option, none, some, List, [], ◌∷◌, beq, if◌then◌else◌, contains, Bool-cases,
}
use react_native_pushy.Common.{
  length, length-append, ◌≡◌, refl, sym, subst, ap, ◌⊎◌, arith, inl, inr,
}
use react_native_pushy.Endpoint.Race.{
  EndpointAttemptSuccess, RaceResult, Race, is_nil, idle, remove_first, finish_race, launch,
  launch_from, launch_next, on_success, with_failure, after_failure, leave, on_failure, on_timer,
  start, Event, timer, succeeds, fails, step, run,
}
use react_native_pushy.Endpoint.Race.Laws.{IsPossible, IsOpen, IsValid, length-remove_first}
use react_native_pushy.Endpoint.Race.Progress.{IsSchedule, run_invariant}
use react_native_pushy.Endpoint.Race.Counts.{
  count_of, failures_of, count_of-append, failures_of-append, count_of-remove_first,
  count_of-is_nil, count_of-none,
}

module _ {A : Type 0} (x : String) (total : ℕ) where
  -- While the race is open, every place of the endpoint is accounted for.
  abbrev pub IsAccounted : Race A → Type 0
  IsAccounted s =
      (s.settled ≡ false)
      × (s.resolved ≡ none)
      × (s.pending ≡ length s.in_flight)
      × (failures_of x s.failures + count_of x s.in_flight + count_of x s.remaining ≡ total)

  -- Without a success, the failures name the endpoint so often.
  abbrev pub Names : Option (RaceResult A) → Type 0
  Names none = Unit
  Names (some r) = r.success ≡ none → failures_of x r.failures ≡ total

  abbrev pub IsNamed : Race A → Type 0
  IsNamed s = IsAccounted s ⊎ ((s.settled ≡ true) × Names s.resolved)

  launch_from-IsAccounted :
      (rest : List String) (s : Race A)
      → s.remaining ≡ rest
      → IsAccounted s
      → IsAccounted (launch_from rest s)
  unfolding count_of
  launch_from-IsAccounted [] s e h = h
  launch_from-IsAccounted (y ∷ rest) s e (running, unresolved, counted, sum) =
      subst (λ b. IsAccounted (if b then record s { hedge_timer = false } else launch y rest s))
        (sym running)
        (
          running,
          unresolved,
          omega (arith, length-append s.in_flight (y ∷ [])),
          omega (arith, count_of-append x s.in_flight (y ∷ []), ap (count_of x) e),
        )

  finish_race-IsNamed :
      (success : Option (EndpointAttemptSuccess A)) (s : Race A)
      → s.settled ≡ false
      → (success ≡ none → failures_of x s.failures ≡ total)
      → IsNamed (finish_race success s)
  unfolding finish_race
  finish_race-IsNamed success s running failed = simp running (inr (refl, failed))

  after_failure-IsNamed : (s : Race A) → IsAccounted s → IsNamed (after_failure s)
  unfolding after_failure launch_next
  after_failure-IsNamed s (running, unresolved, counted, sum) =
      elim (Bool-cases (is_nil s.remaining)) [
        | inl none_left ↦ elim (Bool-cases (beq s.pending 0)) [
          | inl over ↦
              simp (none_left, over)
                (finish_race-IsNamed none s running (λ e. omega (
                  arith,
                  sum,
                  count_of-is_nil x s.remaining none_left,
                  count_of-none x s.in_flight (ground arith),
                )))
          | inr left ↦ simp (none_left, left) (inl (running, unresolved, counted, sum))
        ]
        | inr more ↦
            simp more
              (inl (launch_from-IsAccounted s.remaining s refl (running, unresolved, counted, sum)))
      ]

  -- An event after the end changes neither the flag nor the result.
  finish_of_settled :
      (success : Option (EndpointAttemptSuccess A)) (s : Race A)
      → s.settled ≡ true
      → finish_race success s ≡ s
  unfolding finish_race
  finish_of_settled success s h = simp h

  launch_from-settled :
      (rest : List String) (s : Race A)
      → s.settled ≡ true
      → Names s.resolved
      → IsNamed (launch_from rest s)
  launch_from-settled [] s closed named = inr (closed, named)
  launch_from-settled (y ∷ rest) s closed named =
      subst (λ b. IsNamed (if b then record s { hedge_timer = false } else launch y rest s))
        (sym closed) (inr (closed, named))

  on_timer-IsNamed : (s : Race A) → IsNamed s → IsNamed (on_timer s)
  unfolding on_timer launch_next
  on_timer-IsNamed s h = elim (Bool-cases s.hedge_timer) [
    | inl on ↦ simp on (launch-IsNamed s h)
    | inr off ↦ simp off h
  ]
    where
      launch-IsNamed : (t : Race A) → IsNamed t → IsNamed (launch_from t.remaining t)
      launch-IsNamed t (inl going) = inl (launch_from-IsAccounted t.remaining t refl going)
      launch-IsNamed t (inr (closed, named)) = launch_from-settled t.remaining t closed named

  on_success-IsNamed :
      (endpoint : String) (value : A) (s : Race A)
      → IsNamed s
      → IsNamed (on_success endpoint value s)
  unfolding on_success
  on_success-IsNamed endpoint value s (inl (running, unresolved, counted, sum)) =
      finish_race-IsNamed _ _ running (λ e. cc)
  on_success-IsNamed endpoint value s (inr (closed, named)) =
      let s' : Race A = record s {
        in_flight = remove_first endpoint s.in_flight;
        controllers = remove_first endpoint s.controllers;
      } in
      subst (λ t. IsNamed t)
        (sym (finish_of_settled (some (record { endpoint = endpoint; value = value })) s' closed))
        (inr (closed, named))

  leave-IsAccounted :
      (endpoint error : String) (s : Race A)
      → contains endpoint s.in_flight ≡ true
      → IsAccounted s
      → IsAccounted (with_failure endpoint error (leave endpoint s))
  unfolding failures_of
  leave-IsAccounted endpoint error s flies (running, unresolved, counted, sum) = (
    running,
    unresolved,
    omega (arith, counted, length-remove_first endpoint s.in_flight flies),
    omega (
      arith,
      sum,
      failures_of-append x s.failures (record { endpoint = endpoint; error = error } ∷ []),
      count_of-remove_first x endpoint s.in_flight flies,
    ),
  )

  on_failure-IsNamed :
      (endpoint error : String) (s : Race A)
      → contains endpoint s.in_flight ≡ true
      → IsNamed s
      → IsNamed (on_failure endpoint error s)
  unfolding on_failure
  on_failure-IsNamed endpoint error s flies h = after_failure_if h
    where
      failed : Race A
      failed = with_failure endpoint error (leave endpoint s)

      after_failure_if :
          IsNamed s → IsNamed (if s.settled then leave endpoint s else after_failure failed)
      after_failure_if (inl going) =
          subst (λ b. IsNamed (if b then leave endpoint s else after_failure failed)) (sym going.0)
            (after_failure-IsNamed failed (leave-IsAccounted endpoint error s flies going))
      after_failure_if (inr (closed, named)) =
          subst (λ b. IsNamed (if b then leave endpoint s else after_failure failed)) (sym closed)
            (inr (closed, named))

  step-IsNamed : (e : Event A) (s : Race A) → IsPossible e s → IsNamed s → IsNamed (step e s)
  unfolding step
  step-IsNamed timer s p h = on_timer-IsNamed s h
  step-IsNamed (succeeds endpoint value) s p h = on_success-IsNamed endpoint value s h
  step-IsNamed (fails endpoint error) s p h = on_failure-IsNamed endpoint error s p h

  run-IsNamed :
      (es : List (Event A)) (s : Race A) → IsSchedule es s → IsNamed s → IsNamed (run es s)
  unfolding run
  run-IsNamed [] s p h = h
  run-IsNamed (e ∷ es) s (p, ps) h = run-IsNamed es (step e s) ps (step-IsNamed e s p h)

  names_result :
      (s : Race A) (r : RaceResult A)
      → IsNamed s
      → s.resolved ≡ some r
      → r.success ≡ none
      → failures_of x r.failures ≡ total
  names_result s r (inl (running, unresolved, counted, sum)) e failed = cc
  names_result s r (inr (closed, named)) e failed = subst (λ o. Names o) e named failed

start-IsNamed :
    {A : Type 0} (x e : String) (rest : List String)
    → IsNamed {A = A} x (count_of x (e ∷ rest)) (start (e ∷ rest))
unfolding start launch_next failures_of count_of
start-IsNamed x e rest = inl (
    launch_from-IsAccounted x (count_of x (e ∷ rest)) (e ∷ rest) (idle (e ∷ rest)) refl
      (refl, refl, refl, omega arith))

-- However the race goes, if it ends without a success then its failures name every endpoint exactly
-- as often as it was a candidate.
pub failures-run :
    {A : Type 0} (e : String) (rest : List String) (es : List (Event A)) (x : String)
    (r : RaceResult A)
    → IsSchedule es (start (e ∷ rest))
    → (run es (start (e ∷ rest))).resolved ≡ some r
    → r.success ≡ none
    → failures_of x r.failures ≡ count_of x (e ∷ rest)
failures-run e rest es x r p ended failed =
    names_result x (count_of x (e ∷ rest)) (run es (start (e ∷ rest))) r
      (run-IsNamed x (count_of x (e ∷ rest)) es (start (e ∷ rest)) p (start-IsNamed x e rest)) ended
      failed

-- Whatever order the timer and the requests' outcomes arrive in, the race over a list of at least
-- one endpoint loses none of them and makes none up: while it is open every text is waiting, in flight
-- or failed exactly as often as it was a candidate, some request is in flight (so an outcome can still
-- arrive) and the timer is armed exactly while an endpoint waits; once it is settled the timer is
-- off, and with no success the failures name every candidate as often as it was one.
pub run-IsConserved :
    {A : Type 0} (e : String) (rest : List String) (es : List (Event A))
    → IsSchedule es (start (e ∷ rest))
    → let s = run es (start (e ∷ rest)) in
      ((x : String) → IsNamed x (count_of x (e ∷ rest)) s)
      × IsValid (length (e ∷ rest)) s
      × (IsOpen (length (e ∷ rest)) s → (x : String) × (contains x s.in_flight ≡ true))
run-IsConserved e rest es p =
    let (valid, alive) = run_invariant e rest es p in
    (
      (λ x. run-IsNamed x (count_of x (e ∷ rest)) es (start (e ∷ rest)) p (start-IsNamed x e rest)),
      valid,
      alive,
    )
