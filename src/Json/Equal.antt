-- ===== src/Json/Equal.antt =====
-- jsonDeepEqual (src/updateFlowCore.ts). The values are plain data, so the identity of two objects
-- is not asked for.
mod Keys
pub mod Laws
mod Tests
use react_native_pushy.Common.{
  ℕ, suc, String, Bool, true, false, ◌&&◌, ◌||◌, not, ◌==◌, if◌then◌else◌, beq,
}
use react_native_pushy.Common.{List, [], ◌∷◌, length}
use react_native_pushy.Common.Int.{int_eq}
use react_native_pushy.Json.{
  Value, undef, null, bool, num, str, arr, obj, Items, no_items, item, Fields, no_fields, entry,
  get, has, is_undef,
}

-- `definedKeys`.
unfoldable pub defined_keys : Fields → List String
defined_keys no_fields = []
defined_keys (entry k v fs) = if is_undef v then defined_keys fs else k ∷ defined_keys fs

abbrev pub same_bool : Bool → Bool → Bool
same_bool true b = b
same_bool false b = not b

unfoldable mutual
  unfolding defined_keys has get

  pub json_deep_equal : Value → Value → Bool
  json_deep_equal undef undef = true
  json_deep_equal null null = true
  json_deep_equal (bool a) (bool b) = same_bool a b
  json_deep_equal (num a) (num b) = int_eq a b
  json_deep_equal (str a) (str b) = a == b
  json_deep_equal (arr as_) (arr bs) = equal_items as_ bs
  json_deep_equal (obj left) (obj right) =
      beq (length (defined_keys left)) (length (defined_keys right)) && every_key left right
  json_deep_equal _ _ = false

  -- Equal lengths and equal items.
  pub equal_items : Items → Items → Bool
  equal_items no_items no_items = true
  equal_items (item a as_) (item b bs) = json_deep_equal a b && equal_items as_ bs
  equal_items _ _ = false

  -- `leftKeys.every`.
  pub every_key : Fields → Fields → Bool
  every_key no_fields right = true
  every_key (entry k v left) right =
      if is_undef v
      then every_key left right
      else has k right && json_deep_equal v (get k right) && every_key left right
