-- ===== src/Flow/Request.antt =====
-- buildCheckRequestBody (src/updateFlowCore.ts): the body of a check request.
pub mod Laws
use react_native_pushy.Common.{ℕ, zero, suc, String, Bool, true, false, not, ◌==◌, if◌then◌else◌}
use react_native_pushy.Common.{Option, none, some}
use react_native_pushy.Common.Int.{pos}
use react_native_pushy.Json.{Value, undef, num, str, obj, Fields, no_fields, entry}
use react_native_pushy.Json.{put, del, merge, is_undef}

pub record CheckRequestInput : Type 0 where
  pub package_version : String
  pub current_version : Option String
  pub build_time : String
  pub c_info : Fields
  pub supported_diff_version : Option ℕ
  pub bundle_hash : Option String
  pub is_dev : Bool
  pub extra : Option Fields

-- A text or undefined.
abbrev pub text_value : Option String → Value
text_value none = undef
text_value (some s) = str s

-- `...extra`, where spreading undefined adds nothing.
abbrev pub extra_fields : Option Fields → Fields
extra_fields none = no_fields
extra_fields (some fs) = fs

-- `{ ...extra, packageVersion, hash: currentVersion, buildTime, cInfo }`.
unfoldable pub identity_body : CheckRequestInput → Fields
identity_body input = put "cInfo" (obj input.c_info) (
    put "buildTime" (str input.build_time) (
      put "hash" (text_value input.current_version) (
        put "packageVersion" (str input.package_version)
          (merge no_fields (extra_fields input.extra)))))

unfoldable pub with_diff_version : Option ℕ → Fields → Fields
with_diff_version (some (suc n)) body = put "diffV" (num (pos (suc n))) body
with_diff_version (some zero) body = del "diffV" body
with_diff_version none body = del "diffV" body

unfoldable pub with_bundle_hash : Option String → Fields → Fields
with_bundle_hash none body = del "bundleHash" body
with_bundle_hash (some s) body =
    if s == "" then del "bundleHash" body else put "bundleHash" (str s) body

-- The loop over `Object.entries(extra)` that drops undefined members.
unfoldable pub defined_from : Fields → Fields → Fields
defined_from defined no_fields = defined
defined_from defined (entry k v fs) =
    defined_from (if is_undef v then defined else put k v defined) fs

abbrev pub is_empty : Fields → Bool
is_empty no_fields = true
is_empty (entry k v fs) = false

unfoldable pub with_extra : Option Fields → Fields → Fields
with_extra none body = body
with_extra (some extra) body =
    let defined = defined_from no_fields extra in
    if is_empty defined then body else put "extra" (obj defined) body

unfoldable pub build_check_request_body : CheckRequestInput → Fields
build_check_request_body input =
    let body =
      with_bundle_hash input.bundle_hash
        (with_diff_version input.supported_diff_version (identity_body input)) in
    with_extra input.extra (if input.is_dev then del "buildTime" body else body)
