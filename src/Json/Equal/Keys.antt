-- ===== src/Json/Equal/Keys.antt =====
-- The defined keys of an object (src/updateFlowCore.ts), and what each side of a comparison has.
use react_native_pushy.Common.{
  String, Bool, true, false, ◌&&◌, not, ◌==◌, if◌then◌else◌, Bool-cases, inl, inr, ◌⊎◌,
}
use react_native_pushy.Common.{◌∷◌, length, contains, IsDistinct, ◌≡◌, refl, subst, arith, eq_iff}
use react_native_pushy.Json.{
  Value, undef, Fields, no_fields, entry, get, has, is_undef, HasDistinctKeys,
}
use react_native_pushy.Json.Laws.{get-eq-undef}
use react_native_pushy.Json.Equal.{defined_keys, json_deep_equal, every_key}
use react_native_pushy.Endpoint.Fallback.Sets.{pigeonhole}

-- Only undefined equals undefined.
pub is_undef-json_deep_equal : (v w : Value) → json_deep_equal v w ≡ true → is_undef w ≡ is_undef v
unfolding json_deep_equal
is_undef-json_deep_equal undef undef h = refl
is_undef-json_deep_equal undef _ h = ground arith
is_undef-json_deep_equal v undef h = ground arith
is_undef-json_deep_equal _ _ h = refl

pub get_of_missing : (k : String) (fs : Fields) → has k fs ≡ false → is_undef (get k fs) ≡ true
get_of_missing k fs h = rw (get-eq-undef k fs h) refl

pub contains-defined_keys :
    (k : String) (fs : Fields)
    → HasDistinctKeys fs
    → contains k (defined_keys fs) ≡ not (is_undef (get k fs))
unfolding defined_keys get
contains-defined_keys k no_fields d = refl
contains-defined_keys k (entry j v fs) (fresh, d) =
    ground (arith, contains-defined_keys k fs d, get_of_missing j fs fresh, eq_iff j k)

pub IsDistinct-defined_keys : (fs : Fields) → HasDistinctKeys fs → IsDistinct (defined_keys fs)
unfolding defined_keys
IsDistinct-defined_keys no_fields d = tt
IsDistinct-defined_keys (entry j v fs) (fresh, d) = elim (Bool-cases (is_undef v)) [
  | inl e ↦ rw e (IsDistinct-defined_keys fs d)
  | inr e ↦ rw e (
    ground (arith, contains-defined_keys j fs d, get_of_missing j fs fresh),
    IsDistinct-defined_keys fs d,
  )
]

first_equal :
    (k j : String) (v : Value) (left right : Fields)
    → every_key (entry j v left) right ≡ true
    → (j == k) ≡ true
    → is_undef (get k (entry j v left)) ≡ false
    → json_deep_equal v (get j right) ≡ true
unfolding every_key get
first_equal k j v left right h e defined = ground arith

rest_of : (u a b r : Bool) → (if u then r else (a && b && r)) ≡ true → r ≡ true
rest_of u a b r h = ground arith

rest_equal :
    (j : String) (v : Value) (left right : Fields)
    → every_key (entry j v left) right ≡ true
    → every_key left right ≡ true
unfolding every_key
rest_equal j v left right h =
    rest_of (is_undef v) (has j right) (json_deep_equal v (get j right)) (every_key left right) h

later_defined :
    (k j : String) (v : Value) (left : Fields)
    → (j == k) ≡ false
    → is_undef (get k (entry j v left)) ≡ false
    → is_undef (get k left) ≡ false
unfolding get
later_defined k j v left e defined = ground arith

pub every_key-get :
    (k : String) (left right : Fields)
    → every_key left right ≡ true
    → is_undef (get k left) ≡ false
    → json_deep_equal (get k left) (get k right) ≡ true
unfolding every_key get
every_key-get k no_fields right h defined = ground arith
every_key-get k (entry j v left) right h defined = elim (Bool-cases (j == k)) [
  | inl e ↦ rw e (
      subst (λ u. json_deep_equal v (get u right) ≡ true) ((eq_iff j k).0 e)
        (first_equal k j v left right h e defined))
  | inr e ↦ rw e (
      every_key-get k left right (rest_equal j v left right h) (later_defined k j v left e defined))
]

-- A key that is undefined on the left is undefined on the right: the counts of the defined keys
-- leave no room for it.
pub undef-get :
    (k : String) (left right : Fields)
    → HasDistinctKeys left
    → HasDistinctKeys right
    → length (defined_keys left) ≡ length (defined_keys right)
    → every_key left right ≡ true
    → is_undef (get k left) ≡ true
    → is_undef (get k right) ≡ true
undef-get k left right d e same h missing = elim (Bool-cases (is_undef (get k right))) [
  | inl over ↦ over
  | inr defined ↦ absurd (
      omega (
        arith,
        same,
        pigeonhole (k ∷ defined_keys left) (defined_keys right)
            (
              ground (arith, contains-defined_keys k left d, missing),
              IsDistinct-defined_keys left d,
            )
            (λ z inside. shared z defined (ground (arith, inside))),
      ))
]
  where
    shared :
        (z : String)
        → is_undef (get k right) ≡ false
        → ((k == z) ≡ true) ⊎ (contains z (defined_keys left) ≡ true)
        → contains z (defined_keys right) ≡ true
    shared z defined (inl is_k) =
        subst (λ u. contains u (defined_keys right) ≡ true) ((eq_iff k z).0 is_k)
          (rw (contains-defined_keys k right e, defined) refl)
    shared z defined (inr inside) =
        let same_z =
          is_undef-json_deep_equal (get z left) (get z right) (
            every_key-get z left right h
              (ground (arith, contains-defined_keys z left d, inside))) in
        ground
          (arith, same_z, contains-defined_keys z right e, contains-defined_keys z left d, inside)

pub both_undef : (v w : Value) → is_undef v ≡ true → is_undef w ≡ true → json_deep_equal v w ≡ true
unfolding json_deep_equal
both_undef undef undef h k = refl
both_undef undef _ h k = ground arith
both_undef _ w h k = ground arith
