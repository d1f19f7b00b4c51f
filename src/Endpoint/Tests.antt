-- ===== src/Endpoint/Tests.antt =====
-- The theorems on src/endpoint.ts at concrete schedules, and runs of it.
use react_native_pushy.Common.{ℕ, String, true, some, List, [], ◌∷◌}
use react_native_pushy.Common.{contains, ◌≡◌, refl, arith}
use react_native_pushy.Endpoint.Race.{
  Event, timer, succeeds, fails, start, step, run, launch_next, finish_race, remove_first,
  after_failure, on_success, on_failure, on_timer,
}
use react_native_pushy.Common.{none, ◌≤◌, eq_refl}
use react_native_pushy.Flow.Endpoints.{not_finite}
use react_native_pushy.Endpoint.Race.{RaceResult}
use react_native_pushy.Endpoint.Fallback.{Network, refuses, execute_endpoint_fallback}
use react_native_pushy.Endpoint.Fallback.Round.{IsRunnable}
use react_native_pushy.Endpoint.Fallback.Laws.{asked-execute_endpoint_fallback}
use react_native_pushy.Endpoint.Race.Laws.{IsOpen, IsClosed, IsValid}
use react_native_pushy.Endpoint.Race.Progress.{IsSchedule, run_terminates}
use react_native_pushy.Endpoint.Race.Counts.{count_of}
use react_native_pushy.Endpoint.Race.Cover.{IsNamed, run-IsConserved}

-- The first request fails, which starts the second at once; the third is started by the timer.
abbrev schedule : List (Event ℕ)
schedule = fails "a" "timeout" ∷ timer ∷ succeeds "c" 7 ∷ fails "b" "late" ∷ []

schedule-IsSchedule : IsSchedule schedule (start ("a" ∷ "b" ∷ "c" ∷ []))
unfolding step start on_timer on_success on_failure after_failure launch_next finish_race
    remove_first
schedule-IsSchedule = (refl, (tt, (refl, (refl, tt))))

race_runs :
    (run schedule (start ("a" ∷ "b" ∷ "c" ∷ []))).resolved
    ≡ some (record {
      success = some (record { endpoint = "c"; value = 7 });
      failures = record { endpoint = "a"; error = "timeout" } ∷ [];
    })
unfolding run step start on_timer on_success on_failure after_failure launch_next finish_race
    remove_first
race_runs = refl

run-IsConserved_example :
    let s = run schedule (start ("a" ∷ "b" ∷ "c" ∷ [])) in
    ((x : String) → IsNamed x (count_of x ("a" ∷ "b" ∷ "c" ∷ [])) s)
    × IsValid 3 s
    × (IsOpen 3 s → (x : String) × (contains x s.in_flight ≡ true))
run-IsConserved_example = run-IsConserved "a" ("b" ∷ "c" ∷ []) schedule schedule-IsSchedule

run_terminates_example : IsClosed 3 (run schedule (start ("a" ∷ "b" ∷ "c" ∷ [])))
run_terminates_example =
    run_terminates "a" ("b" ∷ "c" ∷ []) schedule schedule-IsSchedule (omega arith)

abbrev failing : List (Event ℕ)
failing = fails "a" "timeout" ∷ fails "b" "refused" ∷ []

abbrev both_failed : RaceResult ℕ
both_failed = record {
  success = none;
  failures =
      record { endpoint = "a"; error = "timeout" }
      ∷ record { endpoint = "b"; error = "refused" }
      ∷ [];
}

failing_runs :
    IsSchedule failing (start ("a" ∷ "b" ∷ []))
    × ((run failing (start ("a" ∷ "b" ∷ []))).resolved ≡ some both_failed)
unfolding run step start on_timer on_success on_failure after_failure launch_next finish_race
    remove_first
failing_runs = ((refl, (refl, tt)), refl)

-- In every race the first candidate fails, and nothing more is heard.
abbrev first_fails : ℕ → List String → List (Event ℕ)
first_fails k [] = []
first_fails k (c ∷ cs) = fails c "down" ∷ []

abbrev network : Network ℕ
network = record {
  random = not_finite;
  first = λ endpoint. refuses "down";
  hook_error = none;
  remote = λ k. some "c" ∷ [];
  schedule = first_fails;
}

network-IsRunnable : IsRunnable network
unfolding start launch_next
network-IsRunnable k c cs = (rw (eq_refl c) refl, tt)

asked-execute_endpoint_fallback_example :
    (execute_endpoint_fallback network 2 (some "a" ∷ some "b" ∷ [])).asked ≤ 2
asked-execute_endpoint_fallback_example =
    asked-execute_endpoint_fallback network 2 (some "a" ∷ some "b" ∷ []) network-IsRunnable
