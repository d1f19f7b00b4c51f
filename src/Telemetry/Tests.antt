-- ===== src/Telemetry/Tests.antt =====
-- The theorems on telemetry at concrete values, and a run of it.
use react_native_pushy.Common.{none, some, false, ◌≡◌, refl, []}
use react_native_pushy.Events.{EventType}
use react_native_pushy.Telemetry.{
  ReporterEnv, ReportEvent, report_to_server, no_artifact, invalid_key,
}
use react_native_pushy.Telemetry.Laws.{report_to_server-IsPosted, IsAtMostOne}

abbrev production : ReporterEnv
production = record {
  is_dev = false;
  disable_telemetry = false;
  app_key = "k";
  telemetry_endpoint = some "https://a";
  current_version = "v1";
}

abbrev applied : ReportEvent
applied = record {
  event = EventType.mark_success;
  message = [];
  code = none;
  versions = record { new_version = ""; rolled_back_version = "" };
}

report_to_server-IsPosted_example :
    IsAtMostOne production applied (report_to_server production applied)
report_to_server-IsPosted_example = report_to_server-IsPosted production applied

invalid_key_test : invalid_key "k" no_artifact "v2" ≡ "k:noArtifact:v2"
unfolding invalid_key
invalid_key_test = refl
