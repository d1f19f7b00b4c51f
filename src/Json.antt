-- ===== src/Json.antt =====
-- The JavaScript values that the update flow exchanges as JSON (src/type.ts, `unknown`,
-- `Record<string, any>`): plain data, with `undefined` beside what JSON has. Numbers are integers.
-- An object is its members in insertion order; no operation of the program depends on that order.
pub mod Laws
pub mod Equal
use react_native_pushy.Common.{String, Bool, true, false, ◌||◌, ◌&&◌, not, ◌==◌, if◌then◌else◌}
use react_native_pushy.Common.{ℕ, zero, suc, ◌≡◌}
use react_native_pushy.Common.Int.{ℤ, pos, negsuc}

mutual
  pub data Value : Type 0 where
    undef : Value
    null : Value
    bool : Bool → Value
    num : ℤ → Value
    str : String → Value
    arr : Items → Value
    obj : Fields → Value

  pub data Items : Type 0 where
    no_items : Items
    item : Value → Items → Items

  pub data Fields : Type 0 where
    no_fields : Fields
    entry : String → Value → Fields → Fields

-- `object[key]`, undefined where the key is missing.
unfoldable pub get : String → Fields → Value
get k no_fields = undef
get k (entry j v fs) = if j == k then v else get k fs

-- `hasOwnProperty`, `key in object`.
unfoldable pub has : String → Fields → Bool
has k no_fields = false
has k (entry j v fs) = (j == k) || has k fs

-- `object[key] = value`: in place, or as the last member.
unfoldable pub put : String → Value → Fields → Fields
put k v no_fields = entry k v no_fields
put k v (entry j w fs) = let rest = put k v fs in if j == k then entry k v fs else entry j w rest

-- `delete object[key]`.
unfoldable pub del : String → Fields → Fields
del k no_fields = no_fields
del k (entry j v fs) = let rest = del k fs in if j == k then rest else entry j v rest

-- `{ ...a, ...b }`.
unfoldable pub merge : Fields → Fields → Fields
merge a no_fields = a
merge a (entry k v b) = merge (put k v a) b

-- `value?.key`.
unfoldable pub member : String → Value → Value
unfolding get
member k (obj fs) = get k fs
member k v = undef

abbrev pub is_undef : Value → Bool
is_undef undef = true
is_undef _ = false

-- `!!value`.
abbrev pub truthy : Value → Bool
truthy undef = false
truthy null = false
truthy (bool b) = b
truthy (num (pos zero)) = false
truthy (num (pos (suc n))) = true
truthy (num (negsuc n)) = true
truthy (str s) = not (s == "")
truthy (arr xs) = true
truthy (obj fs) = true

-- `typeof value`, as far as the program asks.
abbrev pub is_boolean : Value → Bool
is_boolean (bool b) = true
is_boolean _ = false

abbrev pub is_string : Value → Bool
is_string (str s) = true
is_string _ = false

-- No key stands twice: an object of the language always satisfies this.
abbrev pub HasDistinctKeys : Fields → Type 0
HasDistinctKeys no_fields = Unit
HasDistinctKeys (entry k v fs) = (has k fs ≡ false) × HasDistinctKeys fs
