-- ===== src/Endpoint/Race.antt =====
-- selectFastestSuccessfulEndpoint (src/endpoint.ts) as a state machine. Its closure variables are
-- the state; its callbacks (the hedge timer, and the settling of a request) are the events, which
-- arrive in any order. `A` is what a request yields. Durations are not modelled.
pub mod Laws
pub mod Progress
pub mod Counts
pub mod Cover
use react_native_pushy.Common.{ℕ, zero, suc, ◌+◌, ◌-◌, String, Bool, true, false, ◌==◌, ◌||◌}
use react_native_pushy.Common.{Option, none, some, List, [], ◌∷◌, ◌++◌, beq, if◌then◌else◌}

-- What is known of an error: its message.
pub record EndpointAttemptFailure : Type 0 where
  pub endpoint : String
  pub error : String

pub record EndpointAttemptSuccess (A : Type 0) : Type 0 where
  pub endpoint : String
  pub value : A

-- What the promise resolves to.
pub record RaceResult (A : Type 0) : Type 0 where
  pub success : Option (EndpointAttemptSuccess A)
  pub failures : List EndpointAttemptFailure

-- `remaining` are the endpoints from `nextIndex` on; `in_flight` the requests that have not
-- settled; `controllers` and `aborted` those whose controller is held and was aborted; `resolved`
-- is set together with `settled`.
pub record Race (A : Type 0) : Type 0 where
  pub remaining : List String
  pub in_flight : List String
  pub pending : ℕ
  pub controllers : List String
  pub aborted : List String
  pub failures : List EndpointAttemptFailure
  pub hedge_timer : Bool
  pub settled : Bool
  pub resolved : Option (RaceResult A)

abbrev pub is_nil {ℓ} : {B : Type ℓ} → List B → Bool
is_nil [] = true
is_nil (x ∷ xs) = false

-- The first occurrence goes (`controllers.splice(index, 1)`).
unfoldable pub remove_first : String → List String → List String
remove_first s [] = []
remove_first s (t ∷ ts) = let rest = remove_first s ts in if t == s then ts else t ∷ rest

module _ {A : Type 0} where
  unfoldable pub finish_race : Option (EndpointAttemptSuccess A) → Race A → Race A
  finish_race success s = if s.settled then s else record s {
    settled = true;
    hedge_timer = false;
    aborted = s.controllers;
    resolved = some (record { success = success; failures = s.failures });
  }

  -- The request for `endpoint` starts; the timer is armed while a candidate remains.
  abbrev pub launch : String → List String → Race A → Race A
  launch endpoint rest s = record s {
    remaining = rest;
    in_flight = s.in_flight ++ endpoint ∷ [];
    controllers = s.controllers ++ endpoint ∷ [];
    pending = suc s.pending;
    hedge_timer = if is_nil rest then false else true;
  }

  abbrev pub launch_from : List String → Race A → Race A
  launch_from [] s = record s { hedge_timer = false }
  launch_from (endpoint ∷ rest) s =
      if s.settled then record s { hedge_timer = false } else launch endpoint rest s

  unfoldable pub launch_next : Race A → Race A
  launch_next s = launch_from s.remaining s

  -- `.then` of a request: its own controller is dropped, and the race is won.
  unfoldable pub on_success : String → A → Race A → Race A
  on_success endpoint value s =
      finish_race (some (record { endpoint = endpoint; value = value })) (record s {
        in_flight = remove_first endpoint s.in_flight;
        controllers = remove_first endpoint s.controllers;
      })

  abbrev pub with_failure : String → String → Race A → Race A
  with_failure endpoint error s = record s {
    failures = s.failures ++ record { endpoint = endpoint; error = error } ∷ [];
  }

  -- A failure frees its slot: the next candidate starts at once; after the last one the race ends.
  unfoldable pub after_failure : Race A → Race A
  after_failure s =
      if is_nil s.remaining
      then (if beq s.pending 0 then finish_race none s else s)
      else launch_next s

  -- A settled request leaves the race.
  abbrev pub leave : String → Race A → Race A
  leave endpoint s = record s {
    in_flight = remove_first endpoint s.in_flight;
    pending = s.pending - 1;
  }

  -- `.catch` of a request.
  unfoldable pub on_failure : String → String → Race A → Race A
  on_failure endpoint error s =
      if s.settled
      then leave endpoint s
      else after_failure (with_failure endpoint error (leave endpoint s))

  -- The timer callback is `launchNext`, and runs only while the timer is armed.
  unfoldable pub on_timer : Race A → Race A
  unfolding launch_next
  on_timer s = if s.hedge_timer then launch_next s else s

  abbrev pub idle : List String → Race A
  idle endpoints = record {
    remaining = endpoints;
    in_flight = [];
    pending = 0;
    controllers = [];
    aborted = [];
    failures = [];
    hedge_timer = false;
    settled = false;
    resolved = none;
  }

  -- The call: no endpoint resolves at once, otherwise the first request starts.
  unfoldable pub start : List String → Race A
  unfolding launch_next
  start endpoints =
      if is_nil endpoints
      then record (idle endpoints) {
        settled = true;
        resolved = some (record { success = none; failures = [] });
      }
      else launch_next (idle endpoints)

pub data Event (A : Type 0) : Type 0 where
  timer : Event A
  succeeds : String → A → Event A
  fails : String → String → Event A

module _ {A : Type 0} where
  unfoldable pub step : Event A → Race A → Race A
  unfolding on_timer on_success on_failure
  step timer s = on_timer s
  step (succeeds endpoint value) s = on_success endpoint value s
  step (fails endpoint error) s = on_failure endpoint error s

  -- A schedule: events in the order in which they arrive.
  unfoldable pub run : List (Event A) → Race A → Race A
  unfolding step
  run [] s = s
  run (e ∷ es) s = run es (step e s)
