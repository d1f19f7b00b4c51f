-- ===== src/Endpoint/Fallback/Round.antt =====
-- One round of executeEndpointFallback (src/endpoint.ts).
use react_native_pushy.Common.{
  ◌⊎◌, ℕ, ◌+◌, ◌-◌, ◌≤◌, ◌<◌, String, true, false, Bool-cases, inl, inr,
}
use react_native_pushy.Common.{
  Option, none, some, List, [], ◌∷◌, ◌++◌, map, length, length-append, length-take-le, contains,
  contains-append, ltb, IsDistinct, ◌≡◌, refl, arith,
}
use react_native_pushy.Flow.Endpoints.{dedupe_endpoints}
use react_native_pushy.Flow.Endpoints.Laws.{dedupe_endpoints_lem}
use react_native_pushy.Endpoint.Race.{
  EndpointAttemptFailure, EndpointAttemptSuccess, RaceResult, start, run,
}
use react_native_pushy.Endpoint.Race.Progress.{IsSchedule}
use react_native_pushy.Endpoint.Race.Counts.{count_of, failures_of}
use react_native_pushy.Endpoint.Race.Cover.{failures-run}
use react_native_pushy.Endpoint.Fallback.{
  Network, Loop, Turn, ends, goes_on, add_failures, without, next_candidates, launched,
  after_success, after_race, race_round, turn,
}
use react_native_pushy.Endpoint.Fallback.Sets.{
  pigeonhole, IsDistinct-without, contains-without, contains-take, IsDistinct-take,
  contains-add_failures, failed-add_failures, count-contains, IsDistinct-append,
  IsDistinct-add_failures,
}

-- Every event of every race can happen when it arrives.
abbrev pub IsRunnable : {A : Type 0} → Network A → Type 0
IsRunnable network =
    (k : ℕ) (c : String) (cs : List String)
    → IsSchedule (network.schedule k (c ∷ cs)) (start (c ∷ cs))

-- The endpoints of a round are distinct and new, and no more than the budget has left.
next_candidates_lem :
    (max_requests : ℕ) (excluded candidates : List String) (remote : List (Option String))
    → IsDistinct (next_candidates max_requests excluded candidates remote)
      × (length (next_candidates max_requests excluded candidates remote)
          ≤ max_requests - length excluded)
      × ((z : String)
          → contains z (next_candidates max_requests excluded candidates remote) ≡ true
          → contains z excluded ≡ false)
unfolding next_candidates
next_candidates_lem max_requests excluded candidates remote =
    let plan = dedupe_endpoints (map some candidates ++ remote) in
    let left = max_requests - length excluded in
    (
      IsDistinct-take left _ (
          IsDistinct-without excluded plan
            (dedupe_endpoints_lem (map some candidates ++ remote)).0),
      length-take-le left (without excluded plan),
      λ z inside. ground (
        arith,
        contains-take left (without excluded plan) z inside,
        contains-without excluded plan z,
      ),
    )

-- What the loop keeps: the excluded endpoints are distinct, as many requests have been asked at most,
-- and no more than the budget allows.
abbrev pub IsWithin : ℕ → Loop → Type 0
IsWithin max_requests loop =
    IsDistinct loop.excluded × (loop.asked ≤ length loop.excluded) × (loop.asked ≤ max_requests)

split_append :
    (xs ys : List String) (z : String)
    → contains z (xs ++ ys) ≡ true
    → (contains z xs ≡ true) ⊎ (contains z ys ≡ true)
split_append xs ys z h = elim (Bool-cases (contains z xs)) [
  | inl e ↦ inl e
  | inr e ↦ inr (ground (arith, contains-append z xs ys))
]

-- Failures that name every candidate exclude as many endpoints more.
add_failures-grows :
    (failures : List EndpointAttemptFailure) (excluded candidates : List String)
    → IsDistinct excluded
    → IsDistinct candidates
    → ((z : String) → contains z candidates ≡ true → contains z excluded ≡ false)
    → ((z : String) → failures_of z failures ≡ count_of z candidates)
    → length excluded + length candidates ≤ length (add_failures failures excluded)
add_failures-grows failures excluded candidates d e apart named = omega (
  arith,
  length-append excluded candidates,
  pigeonhole (excluded ++ candidates) (add_failures failures excluded)
      (IsDistinct-append excluded candidates d e apart)
      (λ z inside. held z (split_append excluded candidates z inside)),
)
  where
    held :
        (z : String)
        → (contains z excluded ≡ true) ⊎ (contains z candidates ≡ true)
        → contains z (add_failures failures excluded) ≡ true
    held z (inl old) = contains-add_failures failures excluded z old
    held z (inr new) =
        failed-add_failures failures excluded z
          (omega (arith, named z, count-contains z candidates new))

module _ {A : Type 0} (max_requests : ℕ) where
  -- A round ends within the budget, or goes on with more endpoints excluded.
  abbrev pub IsGood : ℕ → Turn A → Type 0
  IsGood size (ends ended) = ended.asked ≤ max_requests
  IsGood size (goes_on loop) = IsWithin max_requests loop × (size < length loop.excluded)

  after_race-IsGood :
      (network : Network A) (k : ℕ) (c : String) (cs : List String) (loop : Loop)
      (resolved : Option (RaceResult A))
      → IsRunnable network
      → (run (network.schedule k (c ∷ cs)) (start (c ∷ cs))).resolved ≡ resolved
      → IsDistinct (c ∷ cs)
      → (length (c ∷ cs) ≤ max_requests - length loop.excluded)
      → ((z : String) → contains z (c ∷ cs) ≡ true → contains z loop.excluded ≡ false)
      → IsWithin max_requests loop
      → IsGood (length loop.excluded) (
          after_race resolved (record loop {
            candidates = c ∷ cs;
            asked =
                loop.asked + launched (c ∷ cs) (run (network.schedule k (c ∷ cs)) (start (c ∷ cs)));
          }))
  unfolding after_race after_success
  after_race-IsGood network k c cs loop none valid e d short fresh (excluded, few, within) =
      omega arith
  after_race-IsGood network k c cs loop (some r) valid e d short fresh (excluded, few, within) =
      decided r.success refl
    where
      decided :
          (success : Option (EndpointAttemptSuccess A))
          → r.success ≡ success
          → IsGood (length loop.excluded) (
              after_success success r.failures (record loop {
                candidates = c ∷ cs;
                asked =
                    loop.asked
                    + launched (c ∷ cs) (run (network.schedule k (c ∷ cs)) (start (c ∷ cs)));
              }))
      decided (some success) q = omega arith
      decided none q =
          let grows =
            add_failures-grows r.failures loop.excluded (c ∷ cs) excluded d fresh
              (λ z. failures-run c cs (network.schedule k (c ∷ cs)) z r (valid k c cs) e q) in
          (
            (IsDistinct-add_failures r.failures loop.excluded excluded, omega arith, omega arith),
            omega arith,
          )

  pub turn-IsGood :
      (network : Network A) (k : ℕ) (loop : Loop)
      → IsRunnable network
      → IsWithin max_requests loop
      → IsGood (length loop.excluded) (turn network max_requests k loop)
  unfolding turn
  turn-IsGood network k loop valid kept =
      let facts =
        next_candidates_lem max_requests loop.excluded loop.candidates (network.remote k) in
      elim (Bool-cases (ltb (length loop.excluded) max_requests)) [
        | inl e ↦ rw e (
            race-IsGood
              (next_candidates max_requests loop.excluded loop.candidates (network.remote k))
              facts.0 facts.1 facts.2)
        | inr e ↦ rw e kept.2
      ]
    where
      race-IsGood :
          (candidates : List String)
          → IsDistinct candidates
          → length candidates ≤ max_requests - length loop.excluded
          → ((z : String) → contains z candidates ≡ true → contains z loop.excluded ≡ false)
          → IsGood (length loop.excluded) (race_round network k candidates loop)
      race-IsGood [] d short fresh = unfold race_round in kept.2
      race-IsGood (c ∷ cs) d short fresh =
          unfold race_round in after_race-IsGood network k c cs loop _ valid refl d short fresh kept
