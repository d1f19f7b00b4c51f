-- ===== src/Events.antt =====
-- The event types (src/type.ts) and the stable error codes (src/error.ts) that the parts of the
-- client share.
use react_native_pushy.Common.{String, Option, none, some, List, [], ◌∷◌}
use react_native_pushy.Common.{◌==◌, ◌≡◌, refl, if◌then◌else◌}

pub data EventType : Type 0 where
  rollback error_checking checking downloading download_success error_update : EventType
  mark_success error_mark_success force_boot_rescue crash_rescue : EventType
  reset error_reset bundle_mismatch download_fallback error_restart error_switch_version : EventType
  downloading_apk error_download_and_install_apk error_install_apk : EventType

pub data UpdateErrorCode : Type 0 where
  module_not_loaded appkey_required no_endpoints http_status invalid_response : UpdateErrorCode
  check_failed apk_install_pending apk_download_failed user_hook_error : UpdateErrorCode
  singleton_violation invalid_options download_failed patch_failed : UpdateErrorCode
  file_operation_failed switch_version_failed mark_success_failed restart_failed : UpdateErrorCode
  reset_failed invalid_hash_info unsupported_platform : UpdateErrorCode
  apk_install_permission_required apk_install_failed : UpdateErrorCode

-- The text of a code in UPDATE_ERROR_CODES.
abbrev pub code_text : UpdateErrorCode → String
code_text module_not_loaded = "MODULE_NOT_LOADED"
code_text appkey_required = "APPKEY_REQUIRED"
code_text no_endpoints = "NO_ENDPOINTS"
code_text http_status = "HTTP_STATUS"
code_text invalid_response = "INVALID_RESPONSE"
code_text check_failed = "CHECK_FAILED"
code_text apk_install_pending = "APK_INSTALL_PENDING"
code_text apk_download_failed = "APK_DOWNLOAD_FAILED"
code_text user_hook_error = "USER_HOOK_ERROR"
code_text singleton_violation = "SINGLETON_VIOLATION"
code_text invalid_options = "INVALID_OPTIONS"
code_text download_failed = "DOWNLOAD_FAILED"
code_text patch_failed = "PATCH_FAILED"
code_text file_operation_failed = "FILE_OPERATION_FAILED"
code_text switch_version_failed = "SWITCH_VERSION_FAILED"
code_text mark_success_failed = "MARK_SUCCESS_FAILED"
code_text restart_failed = "RESTART_FAILED"
code_text reset_failed = "RESET_FAILED"
code_text invalid_hash_info = "INVALID_HASH_INFO"
code_text unsupported_platform = "UNSUPPORTED_PLATFORM"
code_text apk_install_permission_required = "APK_INSTALL_PERMISSION_REQUIRED"
code_text apk_install_failed = "APK_INSTALL_FAILED"

-- UPDATE_ERROR_CODES, in its order.
abbrev pub update_error_codes : List UpdateErrorCode
update_error_codes =
    module_not_loaded ∷ appkey_required ∷ no_endpoints ∷ http_status ∷ invalid_response
    ∷ check_failed ∷ apk_install_pending ∷ apk_download_failed ∷ user_hook_error
    ∷ singleton_violation ∷ invalid_options ∷ download_failed ∷ patch_failed ∷ file_operation_failed
    ∷ switch_version_failed ∷ mark_success_failed ∷ restart_failed ∷ reset_failed
    ∷ invalid_hash_info ∷ unsupported_platform ∷ apk_install_permission_required
    ∷ apk_install_failed ∷ []

-- `KNOWN_CODES.has(text)`, with the code that the text names.
unfoldable pub find_code : String → List UpdateErrorCode → Option UpdateErrorCode
find_code text [] = none
find_code text (c ∷ cs) = if code_text c == text then some c else find_code text cs

unfoldable pub known_code : String → Option UpdateErrorCode
unfolding find_code
known_code text = find_code text update_error_codes

pub known_code-code_text : (c : UpdateErrorCode) → known_code (code_text c) ≡ some c
unfolding known_code
known_code-code_text module_not_loaded = refl
known_code-code_text _ = refl
