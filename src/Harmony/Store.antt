-- ===== src/Harmony/Store.antt =====
-- The persisted layout (harmony/pushy/src/main/ets/StoreSchema.ts): a preferences store is an object
-- of values, read and written as text.
pub mod Laws
pub mod Migration
use react_native_pushy.Common.{String, Bool, true, false, ◌==◌, if◌then◌else◌, List, [], ◌∷◌}
use react_native_pushy.Common.Int.{ℤ}
use react_native_pushy.Json.{Value, undef, null, bool, num, str, arr, obj, Fields, get, put, del}
use react_native_pushy.Harmony.StateCore.{State}

abbrev pub boolean_true : String
boolean_true = "1"

abbrev pub boolean_false : String
boolean_false = "0"

abbrev pub key_package_version : String
key_package_version = "packageVersion"

abbrev pub key_build_time : String
key_build_time = "buildTime"

abbrev pub key_current_version : String
key_current_version = "currentVersion"

abbrev pub key_last_version : String
key_last_version = "lastVersion"

abbrev pub key_first_time : String
key_first_time = "firstTime"

abbrev pub key_first_time_ok : String
key_first_time_ok = "firstTimeOk"

abbrev pub key_rolled_back_version : String
key_rolled_back_version = "rolledBackVersion"

abbrev pub key_hash_info : String
key_hash_info = "hash_"

abbrev pub key_first_load_marker : String
key_first_load_marker = "firstLoadMarked"

abbrev pub key_check_cache : String
key_check_cache = "nativeCheckResp"

abbrev pub key_round_breadcrumb : String
key_round_breadcrumb = "nativeCheckIncomplete"

abbrev pub key_uuid : String
key_uuid = "uuid"

abbrev pub key_native_config : String
key_native_config = "nativeConfig"

-- `readString` of UpdateContext.ts, over the language's conversion of a number.
unfoldable pub text_of : (ℤ → String) → Value → String
text_of show (str s) = s
text_of show (num n) = show n
text_of show (bool true) = "true"
text_of show (bool false) = "false"
text_of show _ = ""

module _ (show : ℤ → String) where
  unfoldable pub read : String → Fields → String
  unfolding text_of get
  read key store = text_of show (get key store)

  unfoldable pub read_boolean : String → Bool → Fields → Bool
  unfolding read
  read_boolean key fallback store =
      let value = read key store in
      if value == boolean_true then true else if value == boolean_false then false else fallback

  unfoldable pub read_marker : String → Fields → Bool
  unfolding read_boolean
  read_marker key store = read_boolean key false store

  unfoldable pub read_state : Fields → State
  read_state store = record {
    package_version = read key_package_version store;
    build_time = read key_build_time store;
    current_version = read key_current_version store;
    last_version = read key_last_version store;
    first_time = read_boolean key_first_time false store;
    first_time_ok = read_boolean key_first_time_ok true store;
    rolled_back_version = read key_rolled_back_version store;
  }

-- An absent or empty value removes the key.
unfoldable pub write_string : String → String → Fields → Fields
unfolding put del
write_string key value store = if value == "" then del key store else put key (str value) store

unfoldable pub write_boolean : String → Bool → Fields → Fields
unfolding put
write_boolean key value store = put key (str (if value then boolean_true else boolean_false)) store

unfoldable pub write_marker : String → Bool → Fields → Fields
unfolding put del
write_marker key set store = if set then put key (str boolean_true) store else del key store

unfoldable pub write_state : State → Fields → Fields
write_state s store = write_string key_rolled_back_version s.rolled_back_version (
    write_boolean key_first_time_ok s.first_time_ok (
      write_boolean key_first_time s.first_time (
        write_string key_last_version s.last_version (
          write_string key_current_version s.current_version (
            write_string key_build_time s.build_time
              (write_string key_package_version s.package_version store))))))
