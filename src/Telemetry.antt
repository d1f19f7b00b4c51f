-- ===== src/Telemetry.antt =====
-- src/telemetry.ts, and the reporting of src/clientReporter.ts that decides what leaves the client:
-- reportToServer, postReport and reportInvalidUpdateOnce. The transport is not modelled: a
-- posted report is a value in the list that the reporter keeps.
pub mod Laws
mod Tests
use react_native_pushy.Common.{ℕ, String, Bool, true, false, ◌||◌, ◌&&◌, ◌==◌, not, if◌then◌else◌}
use react_native_pushy.Common.{Option, none, some, List, [], ◌∷◌, ◌++◌, contains, take}
use react_native_pushy.Common.Text.{units, text_append}
use react_native_pushy.Events.{
  EventType, UpdateErrorCode, patch_failed, user_hook_error, restart_failed,
}

pub data ServerEventType : Type 0 where
  download_success download_fail patch_fail rollback mark_success : ServerEventType

abbrev pub is_patch_failed : Option UpdateErrorCode → Bool
is_patch_failed (some patch_failed) = true
is_patch_failed _ = false

-- `code === 'USER_HOOK_ERROR' || code === 'RESTART_FAILED'`.
abbrev pub is_not_patch_health : Option UpdateErrorCode → Bool
is_not_patch_health (some user_hook_error) = true
is_not_patch_health (some restart_failed) = true
is_not_patch_health _ = false

unfoldable pub resolve_server_event_type :
    EventType → Option UpdateErrorCode → Option ServerEventType
resolve_server_event_type EventType.download_success code = some download_success
resolve_server_event_type EventType.error_update code =
    some (if is_patch_failed code then patch_fail else download_fail)
resolve_server_event_type EventType.error_switch_version code =
    if is_not_patch_health code then none else some patch_fail
resolve_server_event_type EventType.mark_success code = some mark_success
resolve_server_event_type EventType.rollback code = some rollback
resolve_server_event_type EventType.download_fallback code =
    if is_patch_failed code then some patch_fail else none
resolve_server_event_type _ code = none

-- The two members of an event's data that name a version; "" where it is missing.
pub record EventVersions : Type 0 where
  pub new_version : String
  pub rolled_back_version : String

abbrev pub or_text : String → String → String
or_text a b = if a == "" then b else a

unfoldable pub resolve_server_event_hash : ServerEventType → EventVersions → String → String
resolve_server_event_hash rollback versions current_version = versions.rolled_back_version
resolve_server_event_hash mark_success versions current_version =
    or_text versions.new_version current_version
resolve_server_event_hash _ versions current_version = versions.new_version

abbrev pub max_detail_length : ℕ
max_detail_length = 500

-- The detail as UTF-16 code units.
unfoldable pub truncate_detail : List ℕ → Option (List ℕ)
truncate_detail [] = none
truncate_detail (c ∷ cs) = some (take max_detail_length (c ∷ cs))

pub record ReportEvent : Type 0 where
  pub event : EventType
  pub message : List ℕ
  pub code : Option UpdateErrorCode
  pub versions : EventVersions

-- What a POST to `{endpoint}/report/{appKey}` carries of an event.
pub record ServerReport : Type 0 where
  pub server_type : ServerEventType
  pub hash : String
  pub detail : Option (List ℕ)

pub record ReporterEnv : Type 0 where
  pub is_dev : Bool
  pub disable_telemetry : Bool
  pub app_key : String
  pub telemetry_endpoint : Option String
  pub current_version : String

abbrev pub is_falsy : Option String → Bool
is_falsy none = true
is_falsy (some s) = s == ""

-- `postReport`.
unfoldable pub post_report : ReporterEnv → ServerReport → List ServerReport
post_report env report =
    if env.app_key == "" || is_falsy env.telemetry_endpoint then [] else report ∷ []

unfoldable pub report_as : ReporterEnv → ReportEvent → Option ServerEventType → List ServerReport
report_as env event none = []
report_as env event (some server_type) =
    let hash = resolve_server_event_hash server_type event.versions env.current_version in
    if hash == ""
    then []
    else post_report env
        (record { server_type = server_type; hash = hash; detail = truncate_detail event.message })

-- `reportToServer`: the reports that one event posts, none or one.
unfoldable pub report_to_server : ReporterEnv → ReportEvent → List ServerReport
report_to_server env event =
    if env.is_dev || env.disable_telemetry
    then []
    else report_as env event (resolve_server_event_type event.event event.code)

pub data InvalidUpdate : Type 0 where
  missing_hash no_artifact : InvalidUpdate

abbrev pub reason_text : InvalidUpdate → String
reason_text missing_hash = "missingHash"
reason_text no_artifact = "noArtifact"

-- `${appKey}:${reason}:${hash}`, the key of `reportedInvalidUpdates`.
unfoldable pub invalid_key : String → InvalidUpdate → String → String
invalid_key app_key reason hash =
    text_append app_key (text_append ":" (text_append (reason_text reason) (text_append ":" hash)))

abbrev pub invalid_message : InvalidUpdate → String
invalid_message missing_hash = "update response is missing a version hash"
invalid_message no_artifact = "update response contains no downloadable artifact"

abbrev pub invalid_event : InvalidUpdate → String → ReportEvent
invalid_event reason hash = record {
  event = EventType.error_update;
  message = units (invalid_message reason);
  code = none;
  versions = record { new_version = hash; rolled_back_version = "" };
}

-- `reportInvalidUpdateOnce`: the set of keys after the call, and the event that it reports.
unfoldable pub report_invalid_update_once :
    String → InvalidUpdate → String → List String → List String × Option ReportEvent
report_invalid_update_once app_key reason hash reported =
    let key = invalid_key app_key reason hash in
    if contains key reported
    then (reported, none)
    else (reported ++ key ∷ [], some (invalid_event reason hash))
