-- ===== src/Flow/Endpoints.antt =====
-- dedupeEndpoints and orderEndpointCandidates (src/updateFlowCore.ts): the endpoint plan.
pub mod Laws
use react_native_pushy.Common.{ℕ, ◌-◌, ◌*◌, ◌/◌, String, Bool, ◌||◌, ◌==◌, Option, none, some}
use react_native_pushy.Common.{List, [], ◌∷◌, ◌++◌, length, take, drop, get_or, contains, min, max}
use react_native_pushy.Common.{ltb, if◌then◌else◌}

-- An endpoint that is null, undefined or "" is falsy.
abbrev pub usable : Option String → String
usable none = ""
usable (some s) = s

-- The loop of `dedupeEndpoints`: `result` and `visited` hold the same texts at every round.
unfoldable pub dedupe_from : List String → List (Option String) → List String
dedupe_from result [] = result
dedupe_from result (endpoint ∷ endpoints) =
    let skip = usable endpoint == "" || contains (usable endpoint) result in
    dedupe_from (if skip then result else result ++ usable endpoint ∷ []) endpoints

unfoldable pub dedupe_endpoints : List (Option String) → List String
unfolding dedupe_from
dedupe_endpoints endpoints = dedupe_from [] endpoints

-- `randomSample`: not finite, below zero, or the fraction `numerator / (below + 1)`.
pub data Sample : Type 0 where
  not_finite : Sample
  negative : Sample
  fraction : (numerator below : ℕ) → Sample

-- `Math.floor(randomSample * length)`; below zero only the sign matters, which `Math.max` reads.
abbrev pub floor_of : Sample → ℕ → ℕ
floor_of not_finite n = 0
floor_of negative n = 0
floor_of (fraction numerator below) n = numerator * n / (Prim.Native.Nat.suc below)

unfoldable pub first_index : Sample → ℕ → ℕ
first_index sample n = max 0 (min (floor_of sample n) (n - 1))

unfoldable pub order_endpoint_candidates : List (Option String) → Sample → List String
unfolding dedupe_endpoints first_index
order_endpoint_candidates endpoints random_sample =
    let deduped = dedupe_endpoints endpoints in
    let first = first_index random_sample (length deduped) in
    if ltb (length deduped) 2
    then deduped
    else get_or deduped first "" ∷ (take first deduped ++ drop (Prim.Native.Nat.suc first) deduped)
