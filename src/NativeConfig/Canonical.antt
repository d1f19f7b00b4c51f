-- ===== src/NativeConfig/Canonical.antt =====
-- canonicalizeNativeConfig and nativeConfigsEquivalent (src/updateFlowCore.ts): when two persisted
-- native configurations are the same.
pub mod Lists
pub mod Laws
use react_native_pushy.Common.{
  String, Bool, true, false, ◌&&◌, ◌||◌, not, ◌==◌, if◌then◌else◌, Option, none, some, List, [],
  ◌∷◌, contains,
}
use react_native_pushy.Json.{
  Value, undef, null, bool, num, str, arr, obj, Items, no_items, item, Fields, no_fields, entry,
  get, has, put, merge,
}
use react_native_pushy.Json.Equal.{json_deep_equal}
use react_native_pushy.Flow.Urls.{strip_slashes}

-- `NATIVE_CONFIG_DEFAULTS`.
abbrev pub native_config_defaults : Fields
native_config_defaults = entry "disabled" (bool false) (
    entry "queryUrls" (arr no_items)
      (entry "rnu" (str "") (entry "rn" (str "") (entry "afterDownload" (str "none") no_fields))))

-- `result.some`.
unfoldable pub some_equal : Value → Items → Bool
some_equal v no_items = false
some_equal v (item x xs) = json_deep_equal x v || some_equal v xs

abbrev pub snoc : Items → Value → Items
snoc no_items v = item v no_items
snoc (item x xs) v = item x (snoc xs v)

-- One item of the loop, over `result` and `visited`.
unfoldable pub canonical_item : Value → Items → List String → Items × List String
unfolding some_equal
canonical_item (str s) result visited =
    let url = strip_slashes s in
    if contains url visited then (result, visited) else (snoc result (str url), url ∷ visited)
canonical_item v result visited =
    if some_equal v result then (result, visited) else (snoc result v, visited)

unfoldable pub canonical_items : Items → Items → List String → Items
unfolding canonical_item
canonical_items no_items result visited = result
canonical_items (item v vs) result visited =
    let (result', visited') = canonical_item v result visited in canonical_items vs result' visited'

unfoldable pub canonical_url_list : Value → Value
unfolding canonical_items
canonical_url_list (arr vs) = arr (canonical_items vs no_items [])
canonical_url_list v = v

-- One key of the loop over `endpoints` and `queryUrls`.
unfoldable pub canonical_key : String → Fields → Fields
unfolding canonical_url_list
canonical_key key fs = if has key fs then put key (canonical_url_list (get key fs)) fs else fs

unfoldable pub canonicalize_parsed : Value → Option Fields
unfolding canonical_key
canonicalize_parsed (obj fs) =
    some (canonical_key "queryUrls" (canonical_key "endpoints" (merge native_config_defaults fs)))
canonicalize_parsed _ = none

abbrev pub then_fields : {A : Type 0} → Option Value → (Value → Option A) → Option A
then_fields none f = none
then_fields (some v) f = f v

-- `JSON.parse` is a parameter, none where it throws.
unfoldable pub canonicalize_native_config : (String → Option Value) → String → Option Fields
unfolding canonicalize_parsed
canonicalize_native_config parse config_json = then_fields (parse config_json) canonicalize_parsed

abbrev pub both_equal : Option Fields → Option Fields → Bool
both_equal (some left) (some right) = json_deep_equal (obj left) (obj right)
both_equal _ _ = false

unfoldable pub native_configs_equivalent : (String → Option Value) → String → String → Bool
unfolding canonicalize_native_config
native_configs_equivalent parse left right =
    both_equal (canonicalize_native_config parse left) (canonicalize_native_config parse right)
