-- ===== src/Endpoint/Fallback/Sets.antt =====
-- The sets of endpoints that executeEndpointFallback keeps (src/endpoint.ts), as lists.
use react_native_pushy.Common.{
  ℕ, zero, suc, ◌≤◌, ◌<◌, String, Bool, true, false, not, ◌||◌, ◌&&◌, ◌==◌, Bool-cases, inl, inr,
  eq_iff, eq_refl,
}
use react_native_pushy.Common.{
  List, [], ◌∷◌, ◌++◌, length, take, contains, contains-append, IsDistinct, ◌≡◌, refl, arith, ap,
  subst,
}
use react_native_pushy.Endpoint.Race.{EndpointAttemptFailure, remove_first}
use react_native_pushy.Endpoint.Race.Laws.{length-remove_first}
use react_native_pushy.Endpoint.Race.Counts.{count_of, failures_of}
use react_native_pushy.Endpoint.Fallback.{add, add_failures, without}

-- A list without repetition is no longer than one that holds all of it.
pub contains-remove_first :
    (x e : String) (ys : List String)
    → contains x ys ≡ true
    → (e == x) ≡ false
    → contains x (remove_first e ys) ≡ true
unfolding remove_first
contains-remove_first x e [] h other = h
contains-remove_first x e (y ∷ ys) h other = elim (Bool-cases (y == e)) [
  | inl same ↦ rw same (ground (arith, ap (λ u. u == x) ((eq_iff y e).0 same)))
  | inr differ ↦ rw differ (ground (arith, contains-remove_first x e ys))
]

pub fresh_other :
    (x z : String) (xs : List String)
    → contains x xs ≡ false
    → contains z xs ≡ true
    → (x == z) ≡ false
fresh_other x z xs fresh inside = elim (Bool-cases (x == z)) [
  | inl e ↦ ground (arith, ap (λ u. contains u xs) ((eq_iff x z).0 e))
  | inr e ↦ e
]

pub or_true : (b : Bool) → (b || true) ≡ true
or_true true = refl
or_true false = refl

pub pigeonhole :
    (xs ys : List String)
    → IsDistinct xs
    → ((x : String) → contains x xs ≡ true → contains x ys ≡ true)
    → length xs ≤ length ys
pigeonhole [] ys d h = omega arith
pigeonhole (x ∷ xs) ys (fresh, d) h = omega (
  arith,
  length-remove_first x ys (h x (rw (eq_refl x) refl)),
  pigeonhole xs (remove_first x ys) d (λ z inside.
      contains-remove_first z x ys (h z (rw inside (or_true (x == z))))
        (fresh_other x z xs fresh inside)),
)

pub contains-without :
    (excluded xs : List String) (z : String)
    → contains z (without excluded xs) ≡ (contains z xs && not (contains z excluded))
unfolding without
contains-without excluded [] z = refl
contains-without excluded (x ∷ xs) z = ground (arith, contains-without excluded xs z, eq_iff x z)

pub IsDistinct-without :
    (excluded xs : List String) → IsDistinct xs → IsDistinct (without excluded xs)
unfolding without
IsDistinct-without excluded [] d = d
IsDistinct-without excluded (x ∷ xs) (fresh, d) = elim (Bool-cases (contains x excluded)) [
  | inl e ↦ rw e (IsDistinct-without excluded xs d)
  | inr e ↦ rw e (ground (arith, contains-without excluded xs x), IsDistinct-without excluded xs d)
]

pub contains-take :
    (n : ℕ) (xs : List String) (z : String) → contains z (take n xs) ≡ true → contains z xs ≡ true
contains-take zero xs z h = ground arith
contains-take (suc n) [] z h = h
contains-take (suc n) (x ∷ xs) z h = ground (arith, contains-take n xs z)

pub IsDistinct-take : (n : ℕ) (xs : List String) → IsDistinct xs → IsDistinct (take n xs)
IsDistinct-take zero xs d = tt
IsDistinct-take (suc n) [] d = tt
IsDistinct-take (suc n) (x ∷ xs) (fresh, d) =
    (ground (arith, contains-take n xs x), IsDistinct-take n xs d)

pub contains-add : (x : String) (xs : List String) → contains x (add x xs) ≡ true
contains-add x xs = ground (arith, contains-append x xs (x ∷ []), eq_refl x)

pub contains-add_failures :
    (failures : List EndpointAttemptFailure) (excluded : List String) (z : String)
    → contains z excluded ≡ true
    → contains z (add_failures failures excluded) ≡ true
unfolding add_failures
contains-add_failures [] excluded z h = h
contains-add_failures (failure ∷ failures) excluded z h =
    contains-add_failures failures (add failure.endpoint excluded) z
      (ground (arith, contains-append z excluded (failure.endpoint ∷ [])))

pub failed-add_failures :
    (failures : List EndpointAttemptFailure) (excluded : List String) (z : String)
    → 0 < failures_of z failures
    → contains z (add_failures failures excluded) ≡ true
unfolding add_failures failures_of
failed-add_failures [] excluded z h = ground arith
failed-add_failures (failure ∷ failures) excluded z h = elim (Bool-cases (failure.endpoint == z)) [
  | inl e ↦ contains-add_failures failures (add failure.endpoint excluded) z (
      subst (λ u. contains u (add failure.endpoint excluded) ≡ true)
        ((eq_iff failure.endpoint z).0 e) (contains-add failure.endpoint excluded))
  | inr e ↦ failed-add_failures failures (add failure.endpoint excluded) z (ground arith)
]

pub count-contains : (z : String) (xs : List String) → contains z xs ≡ true → 0 < count_of z xs
unfolding count_of
count-contains z [] h = ground arith
count-contains z (x ∷ xs) h = ground (arith, count-contains z xs)

pub apart_head :
    (x : String) (xs ys : List String)
    → contains x xs ≡ false
    → (contains x ys ≡ true → contains x (x ∷ xs) ≡ false)
    → contains x (xs ++ ys) ≡ false
apart_head x xs ys fresh apart = elim (Bool-cases (contains x ys)) [
  | inl e ↦ ground (arith, apart e, eq_refl x)
  | inr e ↦ ground (arith, contains-append x xs ys)
]

pub IsDistinct-append :
    (xs ys : List String)
    → IsDistinct xs
    → IsDistinct ys
    → ((z : String) → contains z ys ≡ true → contains z xs ≡ false)
    → IsDistinct (xs ++ ys)
IsDistinct-append [] ys d e apart = e
IsDistinct-append (x ∷ xs) ys (fresh, d) e apart = (
  apart_head x xs ys fresh (apart x),
  IsDistinct-append xs ys d e (λ z inside. ground (arith, apart z inside)),
)

pub IsDistinct-add : (x : String) (xs : List String) → IsDistinct xs → IsDistinct (add x xs)
IsDistinct-add x xs d = elim (Bool-cases (contains x xs)) [
  | inl e ↦ rw e d
  | inr e ↦ rw e (
      IsDistinct-append xs (x ∷ []) d (refl, tt)
        (λ z inside. ground (arith, e, ap (λ u. contains u xs) ((eq_iff x z).0 (ground arith)))))
]

pub IsDistinct-add_failures :
    (failures : List EndpointAttemptFailure) (excluded : List String)
    → IsDistinct excluded
    → IsDistinct (add_failures failures excluded)
unfolding add_failures
IsDistinct-add_failures [] excluded d = d
IsDistinct-add_failures (failure ∷ failures) excluded d =
    IsDistinct-add_failures failures (add failure.endpoint excluded)
      (IsDistinct-add failure.endpoint excluded d)
