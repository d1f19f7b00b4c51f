-- ===== src/Json/Equal/Tests.antt =====
-- jsonDeepEqual (src/updateFlowCore.ts) at concrete values.
use react_native_pushy.Common.{String, true, false, ◌≡◌, ◌↔◌, refl}
use react_native_pushy.Common.Int.{pos}
use react_native_pushy.Json.{undef, num, str, obj, Fields, no_fields, entry, get, has}
use react_native_pushy.Json.Equal.{json_deep_equal}
use react_native_pushy.Json.Equal.Laws.{json_deep_equal-get}

abbrev left : Fields
left = entry "a" (num (pos 1)) (entry "gone" undef (entry "b" (str "x") no_fields))

abbrev right : Fields
right = entry "b" (str "x") (entry "a" (num (pos 1)) no_fields)

json_deep_equal-get_example :
    (json_deep_equal (obj left) (obj right) ≡ true)
    ↔ ((k : String) → json_deep_equal (get k left) (get k right) ≡ true)
unfolding has
json_deep_equal-get_example =
    json_deep_equal-get left right (refl, (refl, (refl, tt))) (refl, (refl, tt))

-- The order of the members and an undefined one do not matter here; a value does.
json_deep_equal_runs :
    (json_deep_equal (obj left) (obj right) ≡ true)
    × (json_deep_equal (obj left) (obj (entry "a" (num (pos 2)) right)) ≡ false)
unfolding json_deep_equal
json_deep_equal_runs = (refl, refl)
