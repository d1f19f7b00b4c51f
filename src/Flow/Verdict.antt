-- ===== src/Flow/Verdict.antt =====
-- isValidCheckResult and resolveCheckResult (src/updateFlowCore.ts): the schema gate of a check
-- response, and which of its two releases applies to this device. The log calls are left out.
pub mod Laws
pub mod Members
use react_native_pushy.Common.{String, Bool, true, false, not, ◌&&◌, ◌||◌, ◌==◌, if◌then◌else◌}
use react_native_pushy.Common.{Option, none, some}
use react_native_pushy.Common.Int.{ℤ}
use react_native_pushy.Json.{Value, bool, num, str, obj, Fields, no_fields, entry}
use react_native_pushy.Json.{get, put, del, merge, member, truthy, is_boolean, is_string}
use react_native_pushy.Flow.Hash.{is_in_rollout}

unfoldable pub is_valid_check_result : Value → Bool
is_valid_check_result (obj root) =
    is_boolean (get "upToDate" root)
    || is_boolean (get "update" root)
    || is_boolean (get "expired" root)
    || is_string (get "paused" root)
is_valid_check_result value = false

pub record UpdateIdentity : Type 0 where
  pub package_version : String
  pub current_version : Option String
  pub uuid : String

-- `typeof hash === 'string' && hash.length > 0 && hash === currentVersion`.
abbrev pub runs_already : Value → Option String → Bool
runs_already (str hash) (some current) = not (hash == "") && hash == current
runs_already _ _ = false

-- `...value`: only an object has members to spread here.
abbrev pub fields_of : Value → Fields
fields_of (obj fs) = fs
fields_of _ = no_fields

abbrev pub up_to_date : Fields
up_to_date = entry "upToDate" (bool true) no_fields

-- `{ update: true, ...expVersion }`, with the root's `paths` where it has any.
unfoldable pub candidate_info : Fields → Value → Fields
candidate_info root_result exp_version =
    let info = merge (entry "update" (bool true) no_fields) (fields_of exp_version) in
    let paths = get "paths" root_result in if truthy paths then put "paths" paths info else info

-- The decision on the root release alone.
unfoldable pub resolve_root : Fields → UpdateIdentity → Fields
resolve_root root_result identity =
    if truthy (get "update" root_result)
      && runs_already (get "hash" root_result) identity.current_version
    then up_to_date
    else root_result

-- With `rollout` a number, the device's bucket decides for the candidate.
unfoldable pub resolve_rollout : ℤ → Fields → Value → UpdateIdentity → Fields
resolve_rollout rollout root_result exp_version identity =
    if is_in_rollout rollout identity.uuid
    then (if runs_already (member "hash" exp_version) identity.current_version
        then up_to_date
        else candidate_info root_result exp_version)
    else resolve_root root_result identity

-- `rollout` is `expVersion?.config?.rollout?.[packageVersion]`.
unfoldable pub resolve_by : Value → Fields → Value → UpdateIdentity → Fields
resolve_by (num rollout) root_result exp_version identity =
    if truthy (get "update" root_result) && truthy exp_version
    then resolve_rollout rollout root_result exp_version identity
    else resolve_root root_result identity
resolve_by _ root_result exp_version identity = resolve_root root_result identity

abbrev pub rollout_of : Value → String → Value
rollout_of exp_version package_version =
    member package_version (member "rollout" (member "config" exp_version))

unfoldable pub resolve_check_result : Fields → UpdateIdentity → Fields
resolve_check_result root_info identity =
    let exp_version = get "expVersion" root_info in
    resolve_by (rollout_of exp_version identity.package_version) (del "expVersion" root_info)
      exp_version identity
