-- ===== src/Endpoint/Fallback/Laws.antt =====
-- The budget of executeEndpointFallback (src/endpoint.ts).
use react_native_pushy.Common.{ℕ, zero, suc, ◌+◌, ◌≤◌, ◌<◌, String, false, Bool-cases, inl, inr}
use react_native_pushy.Common.{Option, none, some, List, [], ◌∷◌, length, ltb, ◌≡◌, refl, arith}
use react_native_pushy.Flow.Endpoints.{order_endpoint_candidates}
use react_native_pushy.Endpoint.Fallback.{
  Network, Ended, Loop, Turn, ends, goes_on, turn, follow, rounds, after_refusal, after_first,
  fallback_from, execute_endpoint_fallback, Answer, answers, refuses, throws,
}
use react_native_pushy.Endpoint.Fallback.Round.{IsRunnable, IsWithin, IsGood, turn-IsGood}

suc_add : (m n : ℕ) → suc m + n ≡ suc (m + n)
suc_add m n = omega arith

module _ {A : Type 0} (max_requests : ℕ) where
  follow-asked :
      {size : ℕ} (t : Turn A) (go : Loop → Ended A)
      → IsGood max_requests size t
      → ((next : Loop)
          → IsWithin max_requests next
          → size < length next.excluded
          → (go next).asked ≤ max_requests)
      → (follow t go).asked ≤ max_requests
  follow-asked (ends ended) go h later = h
  follow-asked (goes_on next) go h later = later next h.0 h.1

  follow-same :
      {size : ℕ} (t : Turn A) (go more : Loop → Ended A)
      → IsGood max_requests size t
      → ((next : Loop)
          → IsWithin max_requests next
          → size < length next.excluded
          → go next ≡ more next)
      → follow t go ≡ follow t more
  follow-same (ends ended) go more h same = refl
  follow-same (goes_on next) go more h same = same next h.0 h.1

  rounds-asked :
      (network : Network A) (fuel k : ℕ) (loop : Loop)
      → IsRunnable network
      → IsWithin max_requests loop
      → (rounds network max_requests fuel k loop).asked ≤ max_requests
  unfolding rounds
  rounds-asked network zero k loop valid kept = kept.2
  rounds-asked network (suc fuel) k loop valid kept =
      follow-asked (turn network max_requests k loop)
        (λ next. rounds network max_requests fuel (suc k) next)
        (turn-IsGood max_requests network k loop valid kept)
        (λ next within larger. rounds-asked network fuel (suc k) next valid within)

  -- A loop whose budget is spent ends at once, on any fuel.
  rounds-spent :
      (network : Network A) (fuel k : ℕ) (loop : Loop)
      → max_requests ≤ length loop.excluded
      → rounds network max_requests fuel k loop
        ≡ record { result = throws loop.last_error; asked = loop.asked }
  unfolding rounds turn
  rounds-spent network zero k loop spent = refl
  rounds-spent network (suc fuel) k loop spent =
      rw (spent_test max_requests (length loop.excluded) spent) refl
    where
      spent_test : (m n : ℕ) → m ≤ n → ltb n m ≡ false
      spent_test m n h = ground arith

  rounds-enough :
      (network : Network A) (fuel extra k : ℕ) (loop : Loop)
      → IsRunnable network
      → IsWithin max_requests loop
      → max_requests ≤ length loop.excluded + fuel
      → rounds network max_requests (fuel + extra) k loop ≡ rounds network max_requests fuel k loop
  unfolding rounds
  rounds-enough network zero extra k loop valid kept enough =
      rounds-spent network (0 + extra) k loop (omega arith)
  rounds-enough network (suc fuel) extra k loop valid kept enough = rw (suc_add fuel extra) (
      follow-same (turn network max_requests k loop)
        (λ next. rounds network max_requests (fuel + extra) (suc k) next)
        (λ next. rounds network max_requests fuel (suc k) next)
        (turn-IsGood max_requests network k loop valid kept)
        (λ next within larger.
          rounds-enough network fuel extra (suc k) next valid within
            (omega (arith, larger, enough))))

module _ {A : Type 0} (network : Network A) (max_requests : ℕ) (valid : IsRunnable network) where
  after_refusal-asked :
      (first error : String) (candidates : List String) (thrown : Option String)
      → 1 ≤ max_requests
      → (after_refusal network max_requests first candidates error thrown).asked ≤ max_requests
  unfolding after_refusal
  after_refusal-asked first error candidates none h =
      rounds-asked max_requests network max_requests 0 _ valid ((refl, tt), omega arith, h)
  after_refusal-asked first error candidates (some thrown) h = h

  after_first-asked :
      (first : String) (candidates : List String) (answer : Answer A)
      → 1 ≤ max_requests
      → (after_first network max_requests first candidates answer).asked ≤ max_requests
  unfolding after_first
  after_first-asked first candidates (answers value) h = h
  after_first-asked first candidates (refuses error) h =
      after_refusal-asked first error candidates network.hook_error h

  fallback_from-asked :
      (candidates : List String)
      → (fallback_from network max_requests candidates).asked ≤ max_requests
  unfolding fallback_from
  fallback_from-asked [] = omega arith
  fallback_from-asked (first ∷ others) = elim (Bool-cases (ltb max_requests 1)) [
    | inl e ↦ rw e (omega arith)
    | inr e ↦ rw e (after_first-asked first (first ∷ others) (network.first first) (ground arith))
  ]

-- The fallback never starts more requests than its budget, whatever the endpoints answer, the remote
-- list names and the timers do.
pub asked-execute_endpoint_fallback :
    {A : Type 0} (network : Network A) (max_requests : ℕ) (configured : List (Option String))
    → IsRunnable network
    → (execute_endpoint_fallback network max_requests configured).asked ≤ max_requests
unfolding execute_endpoint_fallback
asked-execute_endpoint_fallback network max_requests configured valid =
    fallback_from-asked network max_requests valid
      (order_endpoint_candidates configured network.random)

-- The requests in the budget are rounds enough: after the first endpoint refused, any more rounds
-- end the fallback in the same way.
rounds_enough :
    {A : Type 0} (network : Network A) (max_requests extra : ℕ) (first error : String)
    (candidates : List String)
    → IsRunnable network
    → 1 ≤ max_requests
    → rounds network max_requests
        (max_requests + extra)
        0
        (record { excluded = first ∷ []; candidates = candidates; last_error = error; asked = 1 })
      ≡ after_refusal network max_requests first candidates error none
unfolding after_refusal
rounds_enough network max_requests extra first error candidates valid h =
    rounds-enough max_requests network max_requests extra 0 _ valid ((refl, tt), omega arith, h)
      (omega arith)
