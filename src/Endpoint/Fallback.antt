-- ===== src/Endpoint/Fallback.antt =====
-- executeEndpointFallback (src/endpoint.ts): one endpoint first, then races over the known and the
-- remote endpoints until a request succeeds or the budget is spent.
pub mod Sets
pub mod Round
pub mod Laws
use react_native_pushy.Common.{ℕ, zero, suc, ◌+◌, ◌-◌, String, Bool, true, false, not}
use react_native_pushy.Common.{
  Option, none, some, List, [], ◌∷◌, ◌++◌, map, length, take, contains, ltb, if◌then◌else◌,
}
use react_native_pushy.Flow.Endpoints.{Sample, dedupe_endpoints, order_endpoint_candidates}
use react_native_pushy.Endpoint.Race.{
  EndpointAttemptFailure, EndpointAttemptSuccess, RaceResult, Race, Event, start, run,
}

-- `tryEndpoint` on the first endpoint.
pub data Answer (A : Type 0) : Type 0 where
  answers : A → Answer A
  refuses : String → Answer A

-- What the fallback meets: the random sample, the first answer, the error of `onFirstFailure` if it
-- throws, the remote endpoints of each round (none where they cannot be had), and the events of each
-- race.
pub record Network (A : Type 0) : Type 0 where
  pub random : Sample
  pub first : String → Answer A
  pub hook_error : Option String
  pub remote : ℕ → List (Option String)
  pub schedule : ℕ → List String → List (Event A)

pub data FallbackResult (A : Type 0) : Type 0 where
  no_endpoints : FallbackResult A
  succeeds : EndpointAttemptSuccess A → FallbackResult A
  throws : String → FallbackResult A
  waits : FallbackResult A

-- How the fallback ends, and how many requests it has started.
pub record Ended (A : Type 0) : Type 0 where
  pub result : FallbackResult A
  pub asked : ℕ

abbrev pub max_endpoint_requests : ℕ
max_endpoint_requests = 8

-- `Set.add`.
abbrev pub add : String → List String → List String
add x xs = if contains x xs then xs else xs ++ x ∷ []

unfoldable pub add_failures : List EndpointAttemptFailure → List String → List String
add_failures [] excluded = excluded
add_failures (failure ∷ failures) excluded = add_failures failures (add failure.endpoint excluded)

unfoldable pub last_of : List EndpointAttemptFailure → String → String
last_of [] error = error
last_of (failure ∷ failures) error = last_of failures failure.error

unfoldable pub without : List String → List String → List String
without excluded [] = []
without excluded (x ∷ xs) =
    let rest = without excluded xs in if contains x excluded then rest else x ∷ rest

-- The candidates of a round: not asked yet, and no more than the budget has left.
unfoldable pub next_candidates : ℕ → List String → List String → List (Option String) → List String
next_candidates max_requests excluded candidates remote =
    take (max_requests - length excluded)
      (without excluded (dedupe_endpoints (map some candidates ++ remote)))

-- The variables of the loop.
pub record Loop : Type 0 where
  pub excluded : List String
  pub candidates : List String
  pub last_error : String
  pub asked : ℕ

-- What one round comes to.
pub data Turn (A : Type 0) : Type 0 where
  ends : Ended A → Turn A
  goes_on : Loop → Turn A

module _ {A : Type 0} where
  -- The requests that a race has started.
  abbrev pub launched : List String → Race A → ℕ
  launched candidates race = length candidates - length race.remaining

  unfoldable pub after_success :
      Option (EndpointAttemptSuccess A) → List EndpointAttemptFailure → Loop → Turn A
  after_success (some success) failures loop =
      ends (record { result = succeeds success; asked = loop.asked })
  after_success none failures loop = goes_on (record loop {
    excluded = add_failures failures loop.excluded;
    last_error = last_of failures loop.last_error;
  })

  -- A race that has not settled keeps the fallback waiting.
  unfoldable pub after_race : Option (RaceResult A) → Loop → Turn A
  unfolding after_success
  after_race none loop = ends (record { result = waits; asked = loop.asked })
  after_race (some r) loop = after_success r.success r.failures loop

  unfoldable pub race_round : Network A → ℕ → List String → Loop → Turn A
  unfolding after_race
  race_round network k [] loop =
      ends (record { result = throws loop.last_error; asked = loop.asked })
  race_round network k (c ∷ cs) loop =
      let race = run (network.schedule k (c ∷ cs)) (start (c ∷ cs)) in
      after_race race.resolved
        (record loop { candidates = c ∷ cs; asked = loop.asked + launched (c ∷ cs) race })

  -- One round of the `while` loop.
  unfoldable pub turn : Network A → ℕ → ℕ → Loop → Turn A
  unfolding race_round
  turn network max_requests k loop =
      if ltb (length loop.excluded) max_requests
      then race_round network k
          (next_candidates max_requests loop.excluded loop.candidates (network.remote k)) loop
      else ends (record { result = throws loop.last_error; asked = loop.asked })

  abbrev pub follow : Turn A → (Loop → Ended A) → Ended A
  follow (ends ended) go = ended
  follow (goes_on loop) go = go loop

  -- The `while` loop, for so many more rounds. A round that goes on has asked one more endpoint at
  -- least, so the requests that the budget has left are rounds enough.
  unfoldable pub rounds : Network A → ℕ → (fuel k : ℕ) → Loop → Ended A
  unfolding turn
  rounds network max_requests zero k loop = record {
    result = throws loop.last_error;
    asked = loop.asked;
  }
  rounds network max_requests (suc fuel) k loop =
      follow (turn network max_requests k loop)
        (λ next. rounds network max_requests fuel (suc k) next)

  -- After the first endpoint refused: `onFirstFailure` may throw.
  unfoldable pub after_refusal :
      Network A → ℕ → String → List String → String → Option String → Ended A
  unfolding rounds
  after_refusal network max_requests first candidates error none =
      rounds network max_requests max_requests 0
        (record { excluded = first ∷ []; candidates = candidates; last_error = error; asked = 1 })
  after_refusal network max_requests first candidates error (some thrown) = record {
    result = throws thrown;
    asked = 1;
  }

  unfoldable pub after_first : Network A → ℕ → String → List String → Answer A → Ended A
  unfolding after_refusal
  after_first network max_requests first candidates (answers value) = record {
    result = succeeds (record { endpoint = first; value = value });
    asked = 1;
  }
  after_first network max_requests first candidates (refuses error) =
      after_refusal network max_requests first candidates error network.hook_error

  unfoldable pub fallback_from : Network A → ℕ → List String → Ended A
  unfolding after_first
  fallback_from network max_requests [] = record { result = no_endpoints; asked = 0 }
  fallback_from network max_requests (first ∷ others) =
      if ltb max_requests 1
      then record { result = no_endpoints; asked = 0 }
      else after_first network max_requests first (first ∷ others) (network.first first)

  unfoldable pub execute_endpoint_fallback : Network A → ℕ → List (Option String) → Ended A
  unfolding fallback_from
  execute_endpoint_fallback network max_requests configured =
      fallback_from network max_requests (order_endpoint_candidates configured network.random)
