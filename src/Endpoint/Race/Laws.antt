-- ===== src/Endpoint/Race/Laws.antt =====
-- The states of the race over the endpoints (src/endpoint.ts) and its single events.
use react_native_pushy.Common.{ℕ, suc, ◌+◌, ◌<◌, String, Bool, true, false, not}
use react_native_pushy.Common.{Option, none, some, List, [], ◌∷◌, beq, if◌then◌else◌, contains}
use react_native_pushy.Common.{length, length-append, ◌≡◌, refl, sym, subst, ◌⊎◌, arith, inl, inr}
use react_native_pushy.Endpoint.Race.{
  EndpointAttemptSuccess, RaceResult, Race, is_nil, idle, remove_first, finish_race, launch,
  launch_from, launch_next, on_success, with_failure, after_failure, leave, on_failure, on_timer,
  start, Event, timer, succeeds, fails,
}

pub length-remove_first :
    (s : String) (ts : List String)
    → contains s ts ≡ true
    → suc (length (remove_first s ts)) ≡ length ts
unfolding remove_first
length-remove_first s [] h = cc
length-remove_first s (t ∷ ts) h = ground (arith, length-remove_first s ts)

length-is_nil {ℓ} : {B : Type ℓ} (xs : List B) → is_nil xs ≡ true → length xs ≡ 0
length-is_nil [] h = refl
length-is_nil (x ∷ xs) h = cc

module _ {A : Type 0} where
  -- An event that can happen: only a request in flight settles.
  abbrev pub IsPossible : Event A → Race A → Type 0
  IsPossible timer s = Unit
  IsPossible (succeeds endpoint value) s = contains endpoint s.in_flight ≡ true
  IsPossible (fails endpoint error) s = contains endpoint s.in_flight ≡ true

-- While the race is open as many endpoints are waiting, in flight or failed as there are; some
-- request is in flight, and the hedge timer is armed exactly while an endpoint waits.
pub record IsOpen {A : Type 0} (total : ℕ) (s : Race A) : Type 0 where
  pub running : s.settled ≡ false
  pub conserved : length s.failures + length s.in_flight + length s.remaining ≡ total
  pub counted : s.pending ≡ length s.in_flight
  pub alive : 0 < s.pending
  pub armed : s.hedge_timer ≡ not (is_nil s.remaining)
  pub unresolved : s.resolved ≡ none

-- Once it is settled it has its result, the timer is off, and if nothing succeeded then every
-- endpoint failed.
pub record IsClosed {A : Type 0} (total : ℕ) (s : Race A) : Type 0 where
  pub closed : s.settled ≡ true
  pub disarmed : s.hedge_timer ≡ false
  pub result : RaceResult A
  pub resolved : s.resolved ≡ some result
  pub all_failed : result.success ≡ none → length result.failures ≡ total

abbrev pub IsValid : {A : Type 0} → ℕ → Race A → Type 0
IsValid total s = IsOpen total s ⊎ IsClosed total s

module _ {A : Type 0} (total : ℕ) where
  launch-IsOpen :
      (endpoint : String) (rest : List String) (s : Race A)
      → s.settled ≡ false
      → s.resolved ≡ none
      → s.pending ≡ length s.in_flight
      → length s.failures + length s.in_flight + suc (length rest) ≡ total
      → IsOpen total (launch endpoint rest s)
  launch-IsOpen endpoint rest s running unresolved counted conserved = record {
    running = running;
    conserved = omega (arith, length-append s.in_flight (endpoint ∷ []));
    counted = omega (arith, length-append s.in_flight (endpoint ∷ []));
    alive = omega arith;
    armed = ground arith;
    unresolved = unresolved;
  }

  launch_from-IsOpen :
      (rest : List String) (s : Race A)
      → s.settled ≡ false
      → s.resolved ≡ none
      → s.pending ≡ length s.in_flight
      → length s.failures + length s.in_flight + length rest ≡ total
      → is_nil rest ≡ false
      → IsOpen total (launch_from rest s)
  launch_from-IsOpen [] s running unresolved counted conserved more = cc
  launch_from-IsOpen (x ∷ rest) s running unresolved counted conserved more =
      subst (λ b. IsOpen total (if b then record s { hedge_timer = false } else launch x rest s))
        (sym running) (launch-IsOpen x rest s running unresolved counted conserved)

  pub start-IsOpen :
      (e : String) (es : List String)
      → suc (length es) ≡ total
      → IsOpen {A = A} total (start (e ∷ es))
  unfolding start
  start-IsOpen e es h = launch-IsOpen e es (idle (e ∷ es)) refl refl refl (omega arith)

  -- The timer of an open race fires only while an endpoint waits.
  pub on_timer-IsOpen : (s : Race A) → IsOpen total s → IsOpen total (on_timer s)
  unfolding on_timer launch_next
  on_timer-IsOpen s v = timer-IsOpen s.hedge_timer refl
    where
      timer-IsOpen :
          (on : Bool)
          → s.hedge_timer ≡ on
          → IsOpen total (if on then launch_from s.remaining s else s)
      timer-IsOpen false off = v
      timer-IsOpen true on =
          launch_from-IsOpen s.remaining s v.running v.unresolved v.counted v.conserved
            (ground (arith, v.armed))

  finish_race-IsClosed :
      (success : Option (EndpointAttemptSuccess A)) (s : Race A)
      → s.settled ≡ false
      → (success ≡ none → length s.failures ≡ total)
      → IsClosed total (finish_race success s)
  unfolding finish_race
  finish_race-IsClosed success s running failed = simp running (record {
    closed = refl;
    disarmed = refl;
    result = record { success = success; failures = s.failures };
    resolved = refl;
    all_failed = failed;
  })

  pub on_success-IsClosed :
      (endpoint : String) (value : A) (s : Race A)
      → IsOpen total s
      → IsClosed total (on_success endpoint value s)
  unfolding on_success
  on_success-IsClosed endpoint value s v = finish_race-IsClosed _ _ v.running (λ h. cc)

  -- After a failure the counters are those of an open race, but a request may no longer be pending.
  after_failure-IsValid :
      (s : Race A)
      → s.settled ≡ false
      → s.resolved ≡ none
      → s.pending ≡ length s.in_flight
      → length s.failures + length s.in_flight + length s.remaining ≡ total
      → s.hedge_timer ≡ not (is_nil s.remaining)
      → IsValid total (after_failure s)
  unfolding after_failure launch_next
  after_failure-IsValid s running unresolved counted conserved armed =
      next (is_nil s.remaining) refl
    where
      last :
          is_nil s.remaining ≡ true
          → (b : Bool) → beq s.pending 0 ≡ b
          → IsValid total (if b then finish_race none s else s)
      last none_left true e = inr (
          finish_race-IsClosed none s running
            (λ _. ground (arith, conserved, counted, length-is_nil s.remaining none_left)))
      last none_left false e = inl (record {
        running = running;
        conserved = conserved;
        counted = counted;
        alive = ground arith;
        armed = armed;
        unresolved = unresolved;
      })

      next :
          (b : Bool)
          → is_nil s.remaining ≡ b
          → IsValid total (
              if b
              then (if beq s.pending 0 then finish_race none s else s)
              else launch_from s.remaining s)
      next true none_left = last none_left (beq s.pending 0) refl
      next false more =
          inl (launch_from-IsOpen s.remaining s running unresolved counted conserved more)

  pub on_failure-IsValid :
      (endpoint error : String) (s : Race A)
      → contains endpoint s.in_flight ≡ true
      → IsOpen total s
      → IsValid total (on_failure endpoint error s)
  unfolding on_failure
  on_failure-IsValid endpoint error s flies v =
      let fewer = length-remove_first endpoint s.in_flight flies in
      let one_more =
        length-append s.failures (record { endpoint = endpoint; error = error } ∷ []) in
      let failed = with_failure endpoint error (leave endpoint s) in
      subst (λ b. IsValid total (if b then leave endpoint s else after_failure failed))
        (sym v.running)
        (after_failure-IsValid failed v.running v.unresolved (omega (arith, fewer, v.counted))
          (omega (arith, one_more, fewer, v.conserved)) v.armed)
