-- ===== src/Telemetry/Laws.antt =====
-- What reaches the server (src/telemetry.ts, src/clientReporter.ts).
use react_native_pushy.Common.{ℕ, ◌≤◌, String, true, false, ◌||◌, ◌==◌, eq_refl}
use react_native_pushy.Common.{
  Option, none, some, List, [], ◌∷◌, ◌++◌, length, length-take-le, ◌≡◌, refl, ◌≢◌, arith, eq_iff,
  All, ◌⊎◌, inl, inr, Bool-cases, subst,
}
use react_native_pushy.Events.{
  EventType, UpdateErrorCode, patch_failed, user_hook_error, restart_failed,
}
use react_native_pushy.Common.{contains, contains-append}
use react_native_pushy.Telemetry.{
  ServerEventType, patch_fail, is_patch_failed, is_not_patch_health, resolve_server_event_type,
  resolve_server_event_hash, truncate_detail, ReportEvent, ServerReport, ReporterEnv, is_falsy,
  post_report, report_as, report_to_server, InvalidUpdate, invalid_key, contains,
  report_invalid_update_once,
}

is_patch_failed_lem :
    (code : Option UpdateErrorCode) → is_patch_failed code ≡ true → code ≡ some patch_failed
is_patch_failed_lem (some patch_failed) h = refl
is_patch_failed_lem _ h = ground arith

is_not_patch_health_lem :
    (code : Option UpdateErrorCode)
    → is_not_patch_health code ≡ false
    → (code ≢ some user_hook_error) × (code ≢ some restart_failed)
is_not_patch_health_lem code h = (λ e. ground arith, λ e. ground arith)

-- A server event counts as a patch failure only for a failed patch: an update or a rescued download
-- with that code, or a failed switch that is neither the user's hook nor the restart.
resolve_server_event_type-eq-patch_fail :
    (event : EventType) (code : Option UpdateErrorCode)
    → resolve_server_event_type event code ≡ some patch_fail
    → ((event ≡ EventType.error_switch_version)
        × (code ≢ some user_hook_error)
        × (code ≢ some restart_failed))
      ⊎ (code ≡ some patch_failed)
unfolding resolve_server_event_type
resolve_server_event_type-eq-patch_fail EventType.error_switch_version code h =
    let health = is_not_patch_health_lem code (ground arith) in inl (refl, health.0, health.1)
resolve_server_event_type-eq-patch_fail EventType.error_update code h =
    inr (is_patch_failed_lem code (ground arith))
resolve_server_event_type-eq-patch_fail EventType.download_fallback code h =
    inr (is_patch_failed_lem code (ground arith))
resolve_server_event_type-eq-patch_fail _ code h = ground arith

abbrev pub IsShort : Option (List ℕ) → Type 0
IsShort none = Unit
IsShort (some cs) = length cs ≤ 500

-- What holds of a posted report.
abbrev pub IsPosted : ReporterEnv → ReportEvent → ServerReport → Type 0
IsPosted env event r =
    (env.is_dev ≡ false)
    × (env.disable_telemetry ≡ false)
    × (resolve_server_event_type event.event event.code ≡ some r.server_type)
    × (r.hash ≢ "")
    × IsShort r.detail

truncate_detail-IsShort : (cs : List ℕ) → IsShort (truncate_detail cs)
unfolding truncate_detail
truncate_detail-IsShort [] = tt
truncate_detail-IsShort (c ∷ cs) = length-take-le 500 (c ∷ cs)

abbrev pub IsAtMostOne : ReporterEnv → ReportEvent → List ServerReport → Type 0
IsAtMostOne env event reports = (length reports ≤ 1) × All (IsPosted env event) reports

post_report_lem :
    (env : ReporterEnv) (event : ReportEvent) (r : ServerReport)
    → IsPosted env event r
    → IsAtMostOne env event (post_report env r)
unfolding post_report
post_report_lem env event r h =
    elim (Bool-cases (env.app_key == "" || is_falsy env.telemetry_endpoint)) [
      | inl e ↦ rw e (omega arith, tt)
      | inr e ↦ rw e (omega arith, (h, tt))
    ]

report_as-IsPosted :
    (env : ReporterEnv) (event : ReportEvent) (server_type : Option ServerEventType)
    → resolve_server_event_type event.event event.code ≡ server_type
    → env.is_dev ≡ false
    → env.disable_telemetry ≡ false
    → IsAtMostOne env event (report_as env event server_type)
unfolding report_as
report_as-IsPosted env event none h dev off = (omega arith, tt)
report_as-IsPosted env event (some t) h dev off =
    elim (Bool-cases (resolve_server_event_hash t event.versions env.current_version == "")) [
      | inl e ↦ rw e (omega arith, tt)
      | inr e ↦ rw e (
          post_report_lem env event _ (
            dev,
            off,
            h,
            λ q.
                ground (
                  arith,
                  eq_iff (resolve_server_event_hash t event.versions env.current_version) "",
                ),
            truncate_detail-IsShort event.message,
          ))
    ]

-- An event posts at most one report, and only outside development and without the opt-out. The
-- report has the type the event resolves to, names a version, and its detail has 500 code units at
-- most.
pub report_to_server-IsPosted :
    (env : ReporterEnv) (event : ReportEvent) → IsAtMostOne env event (report_to_server env event)
unfolding report_to_server report_as
report_to_server-IsPosted env event = elim (Bool-cases (env.is_dev || env.disable_telemetry)) [
  | inl e ↦ rw e (omega arith, tt)
  | inr e ↦ rw e (
      report_as-IsPosted env event (resolve_server_event_type event.event event.code) refl
        (ground arith) (ground arith))
]

contains-append_self : (key : String) (keys : List String) → contains key (keys ++ key ∷ []) ≡ true
contains-append_self key keys = rw contains-append (ground (arith, eq_refl key))

contains-same :
    (key other : String) (keys : List String)
    → contains key keys ≡ true
    → contains other keys ≡ (contains other keys || key == other)
contains-same key other keys h = elim (Bool-cases (key == other)) [
  | inl e ↦
      subst (λ o. contains o keys ≡ (contains o keys || key == o)) ((eq_iff key other).0 e)
        (rw h refl)
  | inr e ↦ ground arith
]

-- An invalid update is reported once: after a call the same call reports nothing and keeps the set,
-- and the call adds its own key to the set and no other.
report_invalid_update_once_lem :
    (app_key hash other : String) (reason : InvalidUpdate) (reported : List String)
    → (report_invalid_update_once app_key reason hash
          (report_invalid_update_once app_key reason hash reported).0
        ≡ ((report_invalid_update_once app_key reason hash reported).0, none))
      × (contains other (report_invalid_update_once app_key reason hash reported).0
          ≡ (contains other reported || invalid_key app_key reason hash == other))
unfolding report_invalid_update_once
report_invalid_update_once_lem app_key hash other reason reported =
    elim (Bool-cases (contains (invalid_key app_key reason hash) reported)) [
      | inl e ↦ rw (e, e) (refl, contains-same (invalid_key app_key reason hash) other reported e)
      | inr e ↦ rw e (
        rw contains-append_self refl,
        ground (arith, contains-append other reported (invalid_key app_key reason hash ∷ [])),
      )
    ]
