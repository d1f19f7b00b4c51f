-- ===== src/Flow/Endpoints/Laws.antt =====
-- The endpoint plan (src/updateFlowCore.ts): its members and its order.
use mathlib.Core.List.{Perm, append-nil, append_assoc}
use mathlib.Core.List.Perm
use native.Mathlib.Nat.{mul-div_cancel}
use react_native_pushy.Common.{ℕ, zero, suc, ◌-◌, ◌<◌, String, Bool, false, ◌||◌, ◌==◌}
use react_native_pushy.Common.{
  ◌*◌, ◌/◌, Option, some, List, [], ◌∷◌, ◌++◌, length, take, drop, get_or,
}
use react_native_pushy.Common.{contains, contains-append, IsDistinct, ltb, ◌≡◌, refl}
use react_native_pushy.Common.{arith, eq_iff, ◌∙◌, Bool-cases, inl, inr, map, ◌≢◌}
use react_native_pushy.Flow.Endpoints.{
  usable, dedupe_from, dedupe_endpoints, Sample, first_index, order_endpoint_candidates,
}

IsDistinct-append :
    (xs : List String) (s : String)
    → IsDistinct xs
    → contains s xs ≡ false
    → IsDistinct (xs ++ s ∷ [])
IsDistinct-append [] s d fresh = ground arith
IsDistinct-append (x ∷ xs) s (new, d) fresh =
    let later = IsDistinct-append xs s d (ground arith) in
    (ground (arith, contains-append x xs (s ∷ []), eq_iff s x, eq_iff x s), later)

dedupe_from-IsDistinct :
    (result : List String) (endpoints : List (Option String))
    → IsDistinct result
    → IsDistinct (dedupe_from result endpoints)
unfolding dedupe_from
dedupe_from-IsDistinct result [] d = d
dedupe_from-IsDistinct result (e ∷ es) d =
    elim (Bool-cases (usable e == "" || contains (usable e) result)) [
      | inl skip ↦ rw skip (dedupe_from-IsDistinct result es d)
      | inr keep ↦ rw keep (
          dedupe_from-IsDistinct (result ++ usable e ∷ []) es
            (IsDistinct-append result (usable e) d (ground arith)))
    ]

-- Whether a text is one of the usable endpoints.
abbrev pub offers : String → List (Option String) → Bool
offers s es = contains s (map usable es)

contains-dedupe_from :
    (result : List String) (endpoints : List (Option String)) (s : String)
    → s ≢ ""
    → contains s (dedupe_from result endpoints) ≡ (contains s result || offers s endpoints)
unfolding dedupe_from
contains-dedupe_from result [] s h = ground arith
contains-dedupe_from result (e ∷ es) s h = ground (
  arith,
  contains-dedupe_from result es s h,
  contains-dedupe_from (result ++ usable e ∷ []) es s h,
  contains-append s result (usable e ∷ []),
  eq_iff (usable e) s,
  eq_iff (usable e) "",
)

empty-dedupe_from :
    (result : List String) (endpoints : List (Option String))
    → contains "" result ≡ false
    → contains "" (dedupe_from result endpoints) ≡ false
unfolding dedupe_from
empty-dedupe_from result [] h = h
empty-dedupe_from result (e ∷ es) h = ground (
  arith,
  empty-dedupe_from result es h,
  empty-dedupe_from (result ++ usable e ∷ []) es,
  contains-append "" result (usable e ∷ []),
)

-- The deduplicated list has no repetition, never the empty text, and has exactly the other texts of
-- the given list.
pub dedupe_endpoints_lem :
    (endpoints : List (Option String))
    → IsDistinct (dedupe_endpoints endpoints)
      × (contains "" (dedupe_endpoints endpoints) ≡ false)
      × ((s : String) → s ≢ "" → contains s (dedupe_endpoints endpoints) ≡ offers s endpoints)
unfolding dedupe_endpoints
dedupe_endpoints_lem endpoints = (
  dedupe_from-IsDistinct [] endpoints tt,
  empty-dedupe_from [] endpoints refl,
  λ s h. contains-dedupe_from [] endpoints s h,
)

contains_of_IsDistinct :
    (result : List String) (x : String) (xs : List String)
    → IsDistinct (result ++ x ∷ xs)
    → contains x result ≡ false
contains_of_IsDistinct [] x xs d = refl
contains_of_IsDistinct (y ∷ ys) x xs (new, d) =
    ground (
      arith,
      contains_of_IsDistinct ys x xs d,
      contains-append y ys (x ∷ xs),
      eq_iff x y,
      eq_iff y x,
    )

-- A list that is already without repetition and without "" is its own deduplication.
dedupe_from_of_IsDistinct :
    (result xs : List String)
    → IsDistinct (result ++ xs)
    → contains "" xs ≡ false
    → dedupe_from result (map some xs) ≡ result ++ xs
unfolding dedupe_from
dedupe_from_of_IsDistinct result [] d h = rw append-nil
dedupe_from_of_IsDistinct result (x ∷ xs) d h =
    let new = contains_of_IsDistinct result x xs d in
    let full : (x == "") ≡ false = ground arith in
    let same : (result ++ x ∷ []) ++ xs ≡ result ++ x ∷ xs = append_assoc result (x ∷ []) xs in
    rw (dedupe_from, full, new)
      (dedupe_from_of_IsDistinct (result ++ x ∷ []) xs (rw same d) (ground arith) ∙ same)

-- Deduplicating twice is deduplicating once: the plan of a plan changes nothing.
pub dedupe_endpoints_idem :
    (endpoints : List (Option String))
    → dedupe_endpoints (map some (dedupe_endpoints endpoints)) ≡ dedupe_endpoints endpoints
dedupe_endpoints_idem endpoints =
    let (distinct, no_empty, _) = dedupe_endpoints_lem endpoints in
    unfold dedupe_endpoints in dedupe_from_of_IsDistinct [] _ distinct no_empty

move_front-perm :
    (xs : List String) (i : ℕ)
    → i < length xs
    → Perm (get_or xs i "" ∷ (take i xs ++ drop (suc i) xs)) xs
move_front-perm [] i h = absurd (omega arith)
move_front-perm (x ∷ xs) zero h = Perm.refl _
move_front-perm (x ∷ xs) (suc i) h =
    Perm.trans (Perm.swap _ _ _) (Perm.cons x (move_front-perm xs i (omega arith)))

first_index-lt : (sample : Sample) (n : ℕ) → 1 < n → first_index sample n < n
unfolding first_index
first_index-lt sample n h = omega arith

the_last : (n : ℕ) → suc (suc n - 1) ≡ suc n
the_last n = omega arith

first_index-fraction : (i n : ℕ) → i < n → first_index (Sample.fraction i (n - 1)) n ≡ i
unfolding first_index
first_index-fraction i zero h = elim h [ ]
first_index-fraction i (suc n) h =
    let exact : i * suc n / suc (suc n - 1) ≡ i =
      rw (the_last n) (mul-div_cancel i (omega arith)) in
    omega (arith, exact)

-- Whatever the sample, the plan holds the deduplicated endpoints, each as often, and where there
-- are two or more the sample `i / n` moves the endpoint at index `i` of the `n` to the front.
pub order_endpoint_candidates-perm :
    (endpoints : List (Option String)) (sample : Sample)
    → Perm (order_endpoint_candidates endpoints sample) (dedupe_endpoints endpoints)
      × ((i : ℕ)
          → i < length (dedupe_endpoints endpoints)
          → 1 < length (dedupe_endpoints endpoints)
          → get_or
              (order_endpoint_candidates endpoints
                (Sample.fraction i (length (dedupe_endpoints endpoints) - 1)))
              0
              ""
            ≡ get_or (dedupe_endpoints endpoints) i "")
unfolding order_endpoint_candidates
order_endpoint_candidates-perm endpoints sample = (
  elim (Bool-cases (ltb (length (dedupe_endpoints endpoints)) 2)) [
    | inl short ↦ rw short (Perm.refl _)
    | inr long ↦ rw long (move_front-perm _ _ (first_index-lt sample _ (ground arith)))
  ],
  λ i h long.
      let several : ltb (length (dedupe_endpoints endpoints)) 2 ≡ false = ground arith in
      rw (several, first_index-fraction i _ h) refl,
)
