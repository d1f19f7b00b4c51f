-- ===== src/Endpoint/Race/Counts.antt =====
-- How often an endpoint stands in a list, and among failures (src/endpoint.ts).
use react_native_pushy.Common.{ℕ, ◌+◌, String, Bool, true, false, ◌==◌}
use react_native_pushy.Common.{List, [], ◌∷◌, ◌++◌, contains, Bool-cases}
use react_native_pushy.Common.{length, ◌≡◌, refl, ap, arith, inl, inr, eq_iff}
use react_native_pushy.Endpoint.Race.{EndpointAttemptFailure, is_nil, remove_first}

abbrev pub bit : Bool → ℕ
bit true = 1
bit false = 0

-- How often a text stands in a list, and an endpoint among failures.
unfoldable pub count_of : String → List String → ℕ
count_of x [] = 0
count_of x (y ∷ ys) = bit (y == x) + count_of x ys

unfoldable pub failures_of : String → List EndpointAttemptFailure → ℕ
failures_of x [] = 0
failures_of x (failure ∷ failures) = bit (failure.endpoint == x) + failures_of x failures

pub count_of-append :
    (x : String) (xs ys : List String) → count_of x (xs ++ ys) ≡ count_of x xs + count_of x ys
unfolding count_of
count_of-append x [] ys = omega arith
count_of-append x (y ∷ xs) ys = omega (arith, count_of-append x xs ys)

pub failures_of-append :
    (x : String) (xs ys : List EndpointAttemptFailure)
    → failures_of x (xs ++ ys) ≡ failures_of x xs + failures_of x ys
unfolding failures_of
failures_of-append x [] ys = omega arith
failures_of-append x (y ∷ xs) ys = omega (arith, failures_of-append x xs ys)

pub count_of-remove_first :
    (x e : String) (xs : List String)
    → contains e xs ≡ true
    → count_of x xs ≡ bit (e == x) + count_of x (remove_first e xs)
unfolding count_of remove_first
count_of-remove_first x e [] h = ground arith
count_of-remove_first x e (t ∷ ts) h = elim (Bool-cases (t == e)) [
  | inl same ↦ rw (same) (ap (λ u. bit (u == x) + count_of x ts) ((eq_iff t e).0 same))
  | inr other ↦ rw other (omega (arith, count_of-remove_first x e ts (ground arith)))
]

pub count_of-is_nil : (x : String) (xs : List String) → is_nil xs ≡ true → count_of x xs ≡ 0
unfolding count_of
count_of-is_nil x [] h = refl
count_of-is_nil x (y ∷ xs) h = ground arith

pub count_of-none : (x : String) (xs : List String) → length xs ≡ 0 → count_of x xs ≡ 0
unfolding count_of
count_of-none x [] h = refl
count_of-none x (y ∷ xs) h = ground arith
