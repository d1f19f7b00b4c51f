-- ===== src/NativeConfig/Canonical/Lists.antt =====
-- The canonical form of a URL list (canonicalUrlList of src/updateFlowCore.ts): the list of its items
-- without trailing slashes, each of them where it stands first.
use react_native_pushy.Common.{
  String, Bool, false, ◌||◌, if◌then◌else◌, List, [], ◌∷◌, contains, ◌≡◌, refl, sym, ap, ◌∙◌, arith,
  Bool-cases, inl, inr,
}
use react_native_pushy.Json.{Value, undef, null, bool, num, str, arr, obj, Items, no_items, item}
use react_native_pushy.Json.Equal.{json_deep_equal}
use react_native_pushy.Flow.Urls.{strip_slashes}
use react_native_pushy.NativeConfig.Canonical.{
  some_equal, snoc, canonical_item, canonical_items, canonical_url_list,
}

-- Every text of the list loses its trailing slashes.
unfoldable pub stripped : Items → Items
stripped no_items = no_items
stripped (item (str s) vs) = item (str (strip_slashes s)) (stripped vs)
stripped (item v vs) = item v (stripped vs)

unfoldable pub is_among : Value → Items → Bool
is_among v no_items = false
is_among v (item x xs) = json_deep_equal x v || is_among v xs

-- The items that equal none of those before them, or of `seen`.
unfoldable pub first_ones : Items → Items → Items
unfolding is_among
first_ones seen no_items = no_items
first_ones seen (item v vs) =
    if is_among v seen then first_ones seen vs else item v (first_ones (item v seen) vs)

abbrev pub join : Items → Items → Items
join no_items ys = ys
join (item x xs) ys = item x (join xs ys)

join-snoc : (xs : Items) (v : Value) (ys : Items) → join (snoc xs v) ys ≡ join xs (item v ys)
join-snoc no_items v ys = refl
join-snoc (item x xs) v ys = ap (item x) (join-snoc xs v ys)

join-empty : (xs : Items) → join xs no_items ≡ xs
join-empty no_items = refl
join-empty (item x xs) = ap (item x) (join-empty xs)

some_equal-snoc :
    (v x : Value) (xs : Items) → some_equal v (snoc xs x) ≡ (json_deep_equal x v || some_equal v xs)
unfolding some_equal
some_equal-snoc v x no_items = refl
some_equal-snoc v x (item y ys) = ground (arith, some_equal-snoc v x ys)

-- `result` and `visited` of the loop hold what is seen.
record Holds (result : Items) (visited : List String) (seen : Items) : Type 0 where
  items : (v : Value) → some_equal v result ≡ is_among v seen
  texts : (s : String) → contains s visited ≡ is_among (str s) seen

Holds-str :
    (s : String) (result : Items) (visited : List String) (seen : Items)
    → Holds result visited seen
    → Holds (snoc result (str s)) (s ∷ visited) (item (str s) seen)
unfolding is_among
Holds-str s result visited seen h = record {
  items =
      λ v. some_equal-snoc v (str s) result ∙ ap (λ b. json_deep_equal (str s) v || b) (h.items v);
  texts = λ t. unfold json_deep_equal in ground (arith, h.texts t);
}

Holds-other :
    (x : Value) (result : Items) (visited : List String) (seen : Items)
    → ((s : String) → json_deep_equal x (str s) ≡ false)
    → Holds result visited seen
    → Holds (snoc result x) visited (item x seen)
unfolding is_among
Holds-other x result visited seen other h = record {
  items = λ v. some_equal-snoc v x result ∙ ap (λ b. json_deep_equal x v || b) (h.items v);
  texts = λ t. ground (arith, h.texts t, other t);
}

-- What the loop comes to on the items that are left.
abbrev Completes : Items → Type 0
Completes vs =
    (result : Items) (visited : List String) (seen : Items)
    → Holds result visited seen
    → canonical_items vs result visited ≡ join result (first_ones seen (stripped vs))

abbrev after_item : Items → Items × List String → Items
after_item vs (result, visited) = canonical_items vs result visited

Completes-other :
    (v : Value) (vs result : Items) (visited : List String) (seen : Items)
    → Holds result visited seen
    → ((s : String) → json_deep_equal v (str s) ≡ false)
    → Completes vs
    → after_item vs (if some_equal v result then (result, visited) else (snoc result v, visited))
      ≡ join result (first_ones seen (item v (stripped vs)))
unfolding first_ones
Completes-other v vs result visited seen h other rest = elim (Bool-cases (is_among v seen)) [
  | inl e ↦ simp (h.items v, e) (rest result visited seen h)
  | inr e ↦
      simp (h.items v, e)
        (rest (snoc result v) visited (item v seen) (Holds-other v result visited seen other h)
          ∙ join-snoc result v (first_ones (item v seen) (stripped vs)))
]

Completes-str :
    (s : String) (vs result : Items) (visited : List String) (seen : Items)
    → Holds result visited seen
    → Completes vs
    → after_item vs
        (if contains s visited then (result, visited) else (snoc result (str s), s ∷ visited))
      ≡ join result (first_ones seen (item (str s) (stripped vs)))
unfolding first_ones
Completes-str s vs result visited seen h rest = elim (Bool-cases (is_among (str s) seen)) [
  | inl e ↦ simp (h.texts s, e) (rest result visited seen h)
  | inr e ↦
      simp (h.texts s, e)
        (rest (snoc result (str s)) (s ∷ visited) (item (str s) seen)
            (Holds-str s result visited seen h)
          ∙ join-snoc result (str s) (first_ones (item (str s) seen) (stripped vs)))
]

canonical_items-first_ones : (vs : Items) → Completes vs
unfolding canonical_items canonical_item stripped json_deep_equal first_ones
canonical_items-first_ones no_items result visited seen h = sym (join-empty result)
canonical_items-first_ones (item (str s) vs) result visited seen h =
    Completes-str (strip_slashes s) vs result visited seen h (canonical_items-first_ones vs)
canonical_items-first_ones (item undef vs) result visited seen h =
    Completes-other undef vs result visited seen h (λ s. refl) (canonical_items-first_ones vs)
canonical_items-first_ones (item null vs) result visited seen h =
    Completes-other null vs result visited seen h (λ s. refl) (canonical_items-first_ones vs)
canonical_items-first_ones (item (bool b) vs) result visited seen h =
    Completes-other (bool b) vs result visited seen h (λ s. refl) (canonical_items-first_ones vs)
canonical_items-first_ones (item (num n) vs) result visited seen h =
    Completes-other (num n) vs result visited seen h (λ s. refl) (canonical_items-first_ones vs)
canonical_items-first_ones (item (arr xs) vs) result visited seen h =
    Completes-other (arr xs) vs result visited seen h (λ s. refl) (canonical_items-first_ones vs)
canonical_items-first_ones (item (obj fs) vs) result visited seen h =
    Completes-other (obj fs) vs result visited seen h (λ s. refl) (canonical_items-first_ones vs)

-- A list of URLs as it counts.
unfoldable pub url_list : Value → Value
url_list (arr vs) = arr (first_ones no_items (stripped vs))
url_list v = v

pub canonical_url_list-url_list : (v : Value) → canonical_url_list v ≡ url_list v
unfolding canonical_url_list url_list some_equal is_among
canonical_url_list-url_list (arr vs) = ap arr (
    canonical_items-first_ones vs no_items [] no_items
      (record { items = λ v. refl; texts = λ s. refl }))
canonical_url_list-url_list undef = refl
canonical_url_list-url_list null = refl
canonical_url_list-url_list (bool b) = refl
canonical_url_list-url_list (num n) = refl
canonical_url_list-url_list (str s) = refl
canonical_url_list-url_list (obj fs) = refl
