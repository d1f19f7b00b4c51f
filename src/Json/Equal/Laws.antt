-- ===== src/Json/Equal/Laws.antt =====
-- The members of objects that jsonDeepEqual (src/updateFlowCore.ts) compares.
use react_native_pushy.Common.{
  ℕ, ◌≤◌, String, Bool, true, false, ◌&&◌, ◌==◌, if◌then◌else◌, beq, Bool-cases, inl, inr, ◌↔◌, ◌∙◌,
}
use react_native_pushy.Common.{length, ◌≡◌, refl, sym, subst, arith, eq_iff, eq_refl}
use react_native_pushy.Json.{
  Value, obj, Fields, no_fields, entry, get, has, is_undef, HasDistinctKeys,
}
use react_native_pushy.Json.Equal.{defined_keys, json_deep_equal, every_key}
use react_native_pushy.Endpoint.Fallback.Sets.{pigeonhole}
use react_native_pushy.Json.Equal.Keys.{
  is_undef-json_deep_equal, get_of_missing, contains-defined_keys, IsDistinct-defined_keys,
  every_key-get, undef-get, both_undef,
}

halves : (m n : ℕ) (b : Bool) → (beq m n && b) ≡ true → (m ≡ n) × (b ≡ true)
halves m n b h = ground arith

members_equal :
    (k : String) (left right : Fields)
    → HasDistinctKeys left
    → HasDistinctKeys right
    → json_deep_equal (obj left) (obj right) ≡ true
    → json_deep_equal (get k left) (get k right) ≡ true
unfolding json_deep_equal
members_equal k left right d e h =
    let both =
      halves (length (defined_keys left)) (length (defined_keys right)) (every_key left right) h in
    elim (Bool-cases (is_undef (get k left))) [
      | inl over ↦
          both_undef (get k left) (get k right) over (undef-get k left right d e both.0 both.1 over)
      | inr defined ↦ every_key-get k left right both.1 defined
    ]

-- Every defined member of the left object has an equal on the right.
abbrev pub Agrees : Fields → Fields → Type 0
Agrees left right =
    (k : String) → is_undef (get k left) ≡ false → json_deep_equal (get k left) (get k right) ≡ true

Agrees-rest :
    (j : String) (v : Value) (left right : Fields)
    → has j left ≡ false
    → Agrees (entry j v left) right
    → Agrees left right
unfolding get
Agrees-rest j v left right fresh agree k defined = elim (Bool-cases (j == k)) [
  | inl e ↦ ground (
    arith,
    defined,
    subst (λ u. is_undef (get u left) ≡ true) ((eq_iff j k).0 e) (get_of_missing j left fresh),
  )
  | inr e ↦
      subst
        (λ b.
          is_undef (if b then v else get k left) ≡ false
          → json_deep_equal (if b then v else get k left) (get k right) ≡ true)
        e (agree k) defined
]

head_equal :
    (j : String) (v : Value) (left right : Fields)
    → Agrees (entry j v left) right
    → is_undef v ≡ false
    → json_deep_equal v (get j right) ≡ true
unfolding get
head_equal j v left right agree defined =
    subst
      (λ b.
        is_undef (if b then v else get j left) ≡ false
        → json_deep_equal (if b then v else get j left) (get j right) ≡ true)
      (eq_refl j) (agree j) defined

has_of_defined : (j : String) (fs : Fields) → is_undef (get j fs) ≡ false → has j fs ≡ true
has_of_defined j fs defined = elim (Bool-cases (has j fs)) [
  | inl e ↦ e
  | inr e ↦ ground (arith, get_of_missing j fs e, defined)
]

and_true : (a b : Bool) → a ≡ true → b ≡ true → (a && b && true) ≡ true
and_true a b h k = ground arith

every_key-Agrees :
    (left right : Fields) → HasDistinctKeys left → Agrees left right → every_key left right ≡ true
unfolding every_key get
every_key-Agrees no_fields right d agree = refl
every_key-Agrees (entry j v left) right (fresh, d) agree = elim (Bool-cases (is_undef v)) [
  | inl e ↦ rw e (every_key-Agrees left right d (Agrees-rest j v left right fresh agree))
  | inr e ↦
      let same = head_equal j v left right agree e in
      rw (e, every_key-Agrees left right d (Agrees-rest j v left right fresh agree))
        (and_true (has j right) (json_deep_equal v (get j right))
          (has_of_defined j right (is_undef-json_deep_equal v (get j right) same ∙ e)) same)
]

defined_keys-le :
    (left right : Fields)
    → HasDistinctKeys left
    → HasDistinctKeys right
    → ((k : String) → is_undef (get k right) ≡ is_undef (get k left))
    → length (defined_keys left) ≤ length (defined_keys right)
defined_keys-le left right d e same =
    pigeonhole (defined_keys left) (defined_keys right) (IsDistinct-defined_keys left d)
      (λ z inside.
        rw (contains-defined_keys z right e, same z, ← contains-defined_keys z left d) inside)

eq_of_le : (m n : ℕ) (b : Bool) → m ≤ n → n ≤ m → b ≡ true → (beq m n && b) ≡ true
eq_of_le m n b h k q = ground arith

-- Two objects without a repeated key compare equal exactly if under every key their members do, a
-- missing one counting as undefined.
pub json_deep_equal-get :
    (left right : Fields)
    → HasDistinctKeys left
    → HasDistinctKeys right
    → (json_deep_equal (obj left) (obj right) ≡ true)
      ↔ ((k : String) → json_deep_equal (get k left) (get k right) ≡ true)
json_deep_equal-get left right d e = (λ h k. members_equal k left right d e h, objects_equal)
  where
    objects_equal :
        ((k : String) → json_deep_equal (get k left) (get k right) ≡ true)
        → json_deep_equal (obj left) (obj right) ≡ true
    objects_equal all =
        unfold json_deep_equal in
        eq_of_le (length (defined_keys left)) (length (defined_keys right)) (every_key left right)
          (defined_keys-le left right d e
            (λ k. is_undef-json_deep_equal (get k left) (get k right) (all k)))
          (defined_keys-le right left e d
            (λ k. sym (is_undef-json_deep_equal (get k left) (get k right) (all k))))
          (every_key-Agrees left right d (λ k defined. all k))
