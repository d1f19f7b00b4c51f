-- ===== src/Harmony/Tests.antt =====
-- The theorems on the Harmony module (harmony/pushy/src/main/ets, cpp/patch_core/state_core.cpp) at
-- concrete inputs, and runs of it.
use react_native_pushy.Common.Pool.{nth_of, without_nth}
use react_native_pushy.Harmony.Store.{read, read_boolean, write_boolean, write_string}
use react_native_pushy.Harmony.Context.Launch.{open_version, persist_launch}
use react_native_pushy.Common.{
  String, Bool, true, false, ◌==◌, some, List, [], ◌∷◌, contains, ◌≡◌, refl, ◌⊎◌,
}
use react_native_pushy.Common.Int.{ℤ}
use react_native_pushy.Json.{str, Fields, no_fields, entry, get}
use react_native_pushy.Harmony.StateCore
use react_native_pushy.Harmony.StateCore.{State}
use react_native_pushy.Harmony.Store.{read_state, write_state}
use react_native_pushy.Harmony.Store.Laws.{read_state-write_state, state_keys}
use react_native_pushy.Harmony.Store.Migration.{MigrationPlan, Stores, migrate_store, retry}
use react_native_pushy.Harmony.Store.Migration.Laws.{IsSafe, migrate_store-IsSafe}
use react_native_pushy.Harmony.Context.{Context, restart, mark_success}
use react_native_pushy.Harmony.Context.Launch.{bundle_of, get_bundle_url}
use react_native_pushy.Harmony.Context.Launch.Laws.{IsOpened, get_bundle_url-IsOpened}
use react_native_pushy.Harmony.Context.Launch.Crash.{crash-rollback, crash-confirmed}
use react_native_pushy.Harmony.Context.Exclusive
use react_native_pushy.Harmony.Context.Exclusive.{
  switches, reads, resumes, cleanup_starts, cleanup_ends, deletes, installs,
}
use react_native_pushy.Harmony.Context.Exclusive.Laws.{
  is_spoiled, IsThere, CanLaunch, run-installed, reset_then_switch, quiet_world,
  run-reset_then_switch,
}
use react_native_pushy.Harmony.Context.Commit.{
  SyncResult, discarded, commit_sync_result, switch_version, activates,
}
use react_native_pushy.Harmony.Context.Commit.Laws.{Reports, commit_sync_result-Reports}
use react_native_pushy.Harmony.Context.Commit.Stale.{around_reset, commit_sync_result-stale}
use react_native_pushy.Common.{Option, none, if◌then◌else◌}
use react_native_pushy.Harmony.Round
use react_native_pushy.Harmony.Round.{schedules, prepares, begins, resets, finishes, cancelled}
use react_native_pushy.Harmony.Round.Laws.{IsOnce, run-init-IsOnce}
use react_native_pushy.Harmony.Round.Cancelled.{run-cancelled}
use react_native_pushy.Harmony.Context.{
  reset_state, reset_to_packaged_bundle, sync_state_with_binary_version,
}
use react_native_pushy.Harmony.Context.Cleared.{IsCleared, reset_to_packaged_bundle-IsCleared}

abbrev digits : ℤ → String
digits n = "0"

abbrev switched : State
switched = record {
  package_version = "1.0";
  build_time = "7";
  current_version = "v2";
  last_version = "v1";
  first_time = true;
  first_time_ok = false;
  rolled_back_version = "";
}

abbrev seeded : Fields
seeded = write_state switched (entry "uuid" (str "u") no_fields)

abbrev process : Context
process = record {
  store = seeded;
  disk = seeded;
  cache = no_fields;
  cache_disk = no_fields;
  reset_generation = 0;
  config_generation = 0;
  ignore_rollback = false;
  launch_version = "";
  js_round = "";
}

read_state-write_state_example :
    (read_state digits seeded ≡ switched)
    × ((k : String)
        → contains k state_keys ≡ false
        → get k seeded ≡ get k (entry "uuid" (str "u") no_fields))
read_state-write_state_example =
    read_state-write_state digits switched (entry "uuid" (str "u") no_fields)

abbrev old_stores : Stores
old_stores = record {
  state = no_fields;
  state_disk = no_fields;
  legacy = entry "uuid" (str "u") (entry "currentVersion" (str "v1") no_fields);
  legacy_disk = entry "uuid" (str "u") (entry "currentVersion" (str "v1") no_fields);
}

abbrev move : MigrationPlan
move = record {
  migrated = true;
  puts = ("currentVersion", "v1") ∷ [];
  removes = "currentVersion" ∷ [];
}

migrate_store-IsSafe_example :
    let (after, result) = migrate_store (some move) false true old_stores in
    IsSafe move.puts old_stores after
    × (result ≡ retry
        → (after.legacy ≡ old_stores.legacy)
          × (after.legacy_disk ≡ old_stores.legacy_disk)
          × (after.state_disk ≡ old_stores.state_disk))
migrate_store-IsSafe_example = migrate_store-IsSafe move false true old_stores

-- The flush that fails leaves the plan to be retried.
retried : (migrate_store (some move) false true old_stores).1 ≡ retry
unfolding migrate_store
retried = refl

get_bundle_url-IsOpened_example :
    IsOpened digits (λ v. v == "v1") (get_bundle_url digits (λ v. v == "v1") true process)
get_bundle_url-IsOpened_example = get_bundle_url-IsOpened digits (λ v. v == "v1") true process

opened : (get_bundle_url digits (λ v. v == "v1") true process).1 ≡ bundle_of "v1"
unfolding get_bundle_url open_version StateCore.resolve_launch_state read_state read write_state
    write_string write_boolean read_boolean persist_launch
opened = refl

crash-rollback_example :
    let first = get_bundle_url digits (λ v. true) true process in
    (first.1 ≡ bundle_of "v2")
    × ((get_bundle_url digits (λ v. true) true (restart first.0)).1 ≡ bundle_of "v1")
unfolding read_state read write_state write_string write_boolean read_boolean
crash-rollback_example =
    crash-rollback digits (λ v. true) (λ v. true) process true refl
      (record { named = refl; unconsumed = refl; unconfirmed = refl }) refl

crash-confirmed_example :
    let first = get_bundle_url digits (λ v. true) true process in
    (get_bundle_url digits (λ v. true) true (restart (mark_success digits false true first.0))).1
    ≡ bundle_of "v2"
unfolding read_state read write_state write_string write_boolean read_boolean
crash-confirmed_example =
    crash-confirmed digits (λ v. true) (λ v. true) process true refl
      (record { named = refl; unconsumed = refl; unconfirmed = refl }) refl refl

abbrev installed_versions : String → Bool
installed_versions v = contains v ("v1" ∷ "v2" ∷ "v3" ∷ [])

abbrev device : Exclusive.World
device = quiet_world switched "v2" installed_versions

abbrev switch_against_cleanup : List Exclusive.Event
switch_against_cleanup =
    switches "v3" ∷ reads 0 ∷ cleanup_starts ∷ deletes "v3" ∷ resumes 0 ∷ cleanup_ends ∷ []

run-installed_example :
    let after = Exclusive.run switch_against_cleanup device in
    (is_spoiled switch_against_cleanup device ≡ true)
    ⊎ ((IsThere after.installed after.state.current_version
          × IsThere after.installed after.state.last_version)
        × (IsThere after.installed after.disk.current_version
            × IsThere after.installed after.disk.last_version)
        × CanLaunch after)
run-installed_example = run-installed switch_against_cleanup device (record {
  current_installed = refl;
  last_installed = refl;
  loaded = refl;
  quiet = refl;
  idle = refl;
})

not_spoiled : is_spoiled switch_against_cleanup device ≡ false
unfolding is_spoiled Exclusive.step
not_spoiled = refl

run-reset_then_switch_example :
    let after =
      Exclusive.run (reset_then_switch "v3") (quiet_world switched "v2" installed_versions) in
    (after.state.current_version ≡ "v3")
    × (after.disk.current_version ≡ "v3")
    × (after.installed "v3" ≡ false)
run-reset_then_switch_example =
    run-reset_then_switch switched "v2" "v3" installed_versions refl refl

abbrev native_round : SyncResult
native_round = record {
  expected_generation = 0;
  hash = "v3";
  hash_info = "info";
  activate = true;
  response_cache = "{}";
}

commit_sync_result-Reports_example :
    let out = commit_sync_result digits native_round true true false process process in
    Reports digits native_round process.disk out.0 out.1
commit_sync_result-Reports_example =
    commit_sync_result-Reports digits native_round true true false process process

commit_sync_result-stale_example :
    let later =
      around_reset digits
        (λ a b. a == b)
        []
        "1.0"
        "7"
        true
        true
        true
        (activates "v1" ∷ [])
        process in
    (commit_sync_result digits native_round true true false later process ≡ (later, discarded))
    × (switch_version digits "v3" 0 true true later ≡ (later, discarded))
commit_sync_result-stale_example =
    commit_sync_result-stale digits (λ a b. a == b) [] (activates "v1" ∷ []) "1.0" "7" true true
      true native_round true true false process refl

abbrev runnable : String → Option Round.Result
runnable config = if config == "" then some (Round.result_of "skipped" "no_config") else none

abbrev same : String → String → Bool
same a b = a == b

abbrev two_hosts : List Round.Event
two_hosts =
    schedules ""
    ∷ prepares false
    ∷ prepares true
    ∷ begins
    ∷ Round.timer_fires
    ∷ finishes none
    ∷ Round.resumes 1
    ∷ Round.resumes 0
    ∷ []

run-init-IsOnce_example : IsOnce (Round.run runnable same two_hosts (Round.init "a" true))
run-init-IsOnce_example = run-init-IsOnce runnable same two_hosts "a" true

one_round : (Round.run runnable same two_hosts (Round.init "a" true)).started ≡ 1
unfolding Round.run Round.init nth_of without_nth
one_round = refl

-- A host waits for a round whose operation has yet to be called.
abbrev asked : Round.World
asked = Round.run runnable same (schedules "" ∷ prepares false ∷ []) (Round.init "a" false)

run-cancelled_example :
    let later = Round.run runnable same (finishes none ∷ []) (
      Round.step runnable same resets
        (Round.run runnable same [] (Round.step runnable same begins asked))) in
    (reason : String) × ((Round.step runnable same (Round.resumes 0) later).answers
      ≡ (0, cancelled reason) ∷ later.answers)
unfolding Round.run Round.init nth_of
run-cancelled_example =
    run-cancelled runnable same [] (finishes none ∷ []) resets asked 0
      (record { id = 0; config = "a"; bounded = false }) (Round.result_of "failed" "internal_error")
      refl tt refl refl

reset_to_packaged_bundle-IsCleared_example :
    IsCleared digits
      (reset_state digits "1.1" "8")
      true
      process
      (reset_to_packaged_bundle digits "1.1" "8" true true true process)
    × (StateCore.is_changed "1.1" "8" (read_state digits process.store) ≡ true
        → IsCleared digits
            (reset_state digits "1.1" "8")
            true
            process
            (sync_state_with_binary_version digits "1.1" "8" true true true process))
reset_to_packaged_bundle-IsCleared_example =
    reset_to_packaged_bundle-IsCleared digits "1.1" "8" true true true process refl refl
