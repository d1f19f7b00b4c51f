-- ===== src/NativeConfig/Tests.antt =====
-- The theorems on the native configuration (src/clientNativeConfig.ts) at concrete inputs, and runs.
use react_native_pushy.Json.{merge, put}
use react_native_pushy.Flow.Urls.{strip_slashes}
use react_native_pushy.Common.{
  if◌then◌else◌, ◌==◌, ◌↔◌, String, true, false, ◌≡◌, refl, Option, none, some, List, [], ◌∷◌,
}
use react_native_pushy.Json.{
  Value, str, arr, obj, no_items, item, Fields, no_fields, entry, has, member,
}
use react_native_pushy.Json.Equal.{json_deep_equal, defined_keys}
use react_native_pushy.NativeConfig.{
  silent_and_later, Options, Host, get_native_config_json, after_download,
}
use react_native_pushy.NativeConfig.Machine.{
  world, writing, idle, sets_options, stores, refuses, observes, finishes, Event, run, step, init,
  mark_js_check_completed,
}
use react_native_pushy.NativeConfig.Latest.{track_all}
use react_native_pushy.NativeConfig.Register.{run-idle-stored, answers, run-answers-idle}
use react_native_pushy.NativeConfig.Handover.{handover, handover-stored}
use react_native_pushy.NativeConfig.Canonical.{native_configs_equivalent, canonical_url_list}
use react_native_pushy.NativeConfig.Canonical.Laws.{canonical_member, native_configs_equivalent-get}

abbrev device : Host
device = record { has_sync_method = true; package_version = "1.0"; rnu = "10"; rn = "0.7" }

abbrev for_app : String → Options
for_app key = record {
  is_native_source = false;
  app_key = str key;
  main = "https://a" ∷ [];
  query_urls = [];
  update_strategy = some silent_and_later;
  has_check_strategy = true;
  disable_native_check = false;
}

abbrev by_host : Options
by_host = record (for_app "a") { is_native_source = true }

abbrev text_of : Value → String
text_of (str s) = s
text_of _ = "?"

abbrev shown_text : Value → String
shown_text v = text_of (member "appKey" v)

-- The options go to "b" and back to "a" while the first write is in flight.
abbrev reverted : List Event
reverted =
    sets_options (for_app "a")
    ∷ stores
    ∷ observes
    ∷ finishes
    ∷ sets_options (for_app "b")
    ∷ stores
    ∷ sets_options (for_app "a")
    ∷ observes
    ∷ finishes
    ∷ stores
    ∷ observes
    ∷ finishes
    ∷ []

run-idle-stored_example :
    (run shown_text device reverted (init (for_app "a") none)).stored ≡ some "a"
unfolding run track_all get_native_config_json init member
run-idle-stored_example =
    run-idle-stored shown_text device refl (for_app "a") none reverted "a"
      (tt, (tt, (tt, (tt, (tt, (tt, (tt, (tt, (tt, (tt, (tt, (tt, tt)))))))))))) refl refl refl

run-answers-idle_example :
    (run shown_text device
      (answers false true)
      (world (for_app "a") none (some "b") (writing "a") none)).flight
    ≡ idle
run-answers-idle_example =
    run-answers-idle shown_text device (world (for_app "a") none (some "b") (writing "a") none)
      false true

abbrev handed_over : List Event
handed_over = handover (for_app "a") by_host "theirs"

handover-stored_example :
    ((run shown_text device handed_over (init (for_app "a") none)).flight ≡ idle)
    × ((run shown_text device handed_over (init (for_app "a") none)).pending ≡ none)
    × ((run shown_text device handed_over (init (for_app "a") none)).synced ≡ some "a")
    × ((run shown_text device handed_over (init (for_app "a") none)).stored ≡ some "theirs")
unfolding get_native_config_json member
handover-stored_example =
    handover-stored shown_text device (for_app "a") by_host "a" "theirs" none refl refl refl refl
      refl

abbrev short_form : Fields
short_form =
    entry "appKey" (str "k") (entry "endpoints" (arr (item (str "https://a/") no_items)) no_fields)

abbrev long_form : Fields
long_form = entry "queryUrls" (arr no_items) (
    entry "endpoints" (arr (item (str "https://a") (item (str "https://a//") no_items)))
      (entry "appKey" (str "k") no_fields))

abbrev parse_form : String → Option Value
parse_form s = some (obj (if s == "short" then short_form else long_form))

native_configs_equivalent-get_example :
    (native_configs_equivalent parse_form "short" "long" ≡ true) ↔ (
      (k : String)
      → json_deep_equal (canonical_member k short_form) (canonical_member k long_form) ≡ true)
unfolding has
native_configs_equivalent-get_example =
    native_configs_equivalent-get parse_form "short" "long" short_form long_form (refl, (refl, tt))
      (refl, (refl, (refl, tt))) refl refl

forms_equivalent : native_configs_equivalent parse_form "short" "long" ≡ true
unfolding native_configs_equivalent json_deep_equal defined_keys strip_slashes canonical_url_list
    merge put
forms_equivalent = refl

-- Only a silent strategy with automatic checks hands activation to the native check.
after_download_runs :
    (after_download (for_app "a") ≡ "setNeedUpdate")
    × (after_download (record (for_app "a") { has_check_strategy = false }) ≡ "none")
    × (after_download (record (for_app "a") { update_strategy = none }) ≡ "none")
unfolding after_download
after_download_runs = (refl, refl, refl)

completed_runs :
    (mark_js_check_completed true none (some "a") ≡ some "a")
    × (mark_js_check_completed true (some "a") (some "a") ≡ none)
    × (mark_js_check_completed false none (some "a") ≡ none)
unfolding mark_js_check_completed
completed_runs = (refl, refl, refl)

-- A rejected write is not repeated before the next setOptions.
refused_run :
    let w =
      run shown_text device
        (sets_options (for_app "a") ∷ refuses ∷ observes ∷ finishes ∷ [])
        (init (for_app "a") none) in
    (w.stored ≡ none) × (w.flight ≡ idle) × (w.pending ≡ none)
unfolding run step get_native_config_json init member
refused_run = (refl, refl, refl)
