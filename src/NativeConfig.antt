-- ===== src/NativeConfig.antt =====
-- NativeConfigSync (src/clientNativeConfig.ts): the configuration that the native cold-start check
-- runs with, and the queue that writes it to native storage.
pub mod Machine
pub mod Latest
pub mod Register
pub mod Handover
pub mod Canonical
mod Tests
use react_native_pushy.Common.{String, Bool, true, false, ◌&&◌, ◌||◌, not, ◌==◌}
use react_native_pushy.Common.{Option, none, some, List, [], ◌∷◌, if◌then◌else◌}
use react_native_pushy.Json.{
  Value, undef, bool, str, arr, obj, Items, no_items, item, Fields, no_fields, entry, truthy,
}

pub data UpdateStrategy : Type 0 where
  always_alert alert_update_and_ignore_error silent_and_now silent_and_later : UpdateStrategy

-- The client options that are read here. A list that is undefined is empty, and so is the list of a
-- server that is; `update_strategy` is none where it is null or undefined.
pub record Options : Type 0 where
  pub is_native_source : Bool
  pub app_key : Value
  pub main : List String
  pub query_urls : List String
  pub update_strategy : Option UpdateStrategy
  pub has_check_strategy : Bool
  pub disable_native_check : Bool

-- What a check reads of the host and of `cInfo`.
pub record Host : Type 0 where
  pub has_sync_method : Bool
  pub package_version : String
  pub rnu : String
  pub rn : String

abbrev pub texts : List String → Items
texts [] = no_items
texts (s ∷ ss) = item (str s) (texts ss)

abbrev pub is_nil : List String → Bool
is_nil [] = true
is_nil (s ∷ ss) = false

abbrev pub is_silent : Option UpdateStrategy → Bool
is_silent (some UpdateStrategy.silent_and_now) = true
is_silent (some UpdateStrategy.silent_and_later) = true
is_silent _ = false

unfoldable pub after_download : Options → String
after_download o =
    if o.has_check_strategy && is_silent o.update_strategy then "setNeedUpdate" else "none"

abbrev disabled_config : Host → Options → Fields
disabled_config host o =
    entry "disabled" (bool true)
      (entry "appKey" o.app_key (entry "rnu" (str host.rnu) (entry "rn" (str host.rn) no_fields)))

abbrev enabled_config : Host → Options → Fields
unfolding after_download
enabled_config host o = entry "appKey" o.app_key (
    entry "packageVersion" (str host.package_version) (
      entry "endpoints" (arr (texts o.main)) (
        entry "queryUrls" (arr (texts o.query_urls)) (
          entry "afterDownload" (str (after_download o))
            (entry "rnu" (str host.rnu) (entry "rn" (str host.rn) no_fields))))))

-- `getNativeConfig`; none is undefined.
unfoldable pub get_native_config : Host → Options → Option Fields
unfolding after_download
get_native_config host o =
    if not host.has_sync_method
    then none
    else if o.disable_native_check
    then some (disabled_config host o)
    else if not (truthy o.app_key) || is_nil o.main
    then none
    else some (enabled_config host o)

-- `JSON.stringify` is a parameter.
unfoldable pub get_native_config_json : (Value → String) → Host → Options → Option String
unfolding get_native_config
get_native_config_json stringify host o = elim (get_native_config host o) [
  | none ↦ none
  | some fs ↦ some (stringify (obj fs))
]
