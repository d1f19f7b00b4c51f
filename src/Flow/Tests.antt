-- ===== src/Flow/Tests.antt =====
-- The theorems on the decision layer (src/updateFlowCore.ts) at concrete inputs, and runs of it.
use mathlib.Core.List.{Perm}
use react_native_pushy.Common.{ℕ, ◌<◌, ◌-◌, String, true, false}
use react_native_pushy.Common.{Option, none, some, List, [], ◌∷◌, ◌≡◌, refl, ◌≢◌}
use react_native_pushy.Common.{length, get_or}
use react_native_pushy.Common.Int.{pos}
use react_native_pushy.Common.Text.{units}
use react_native_pushy.Json.{
  undef, bool, num, str, arr, obj, no_items, item, Fields, no_fields, entry,
}
use react_native_pushy.Json.{get, has, HasDistinctKeys}
use react_native_pushy.Flow.Hash.{
  mul_split, add_split, mix_k, mix_h, blocks, finish_hash, murmurhash3_32_gc, is_in_rollout,
}
use react_native_pushy.Flow.Hash.Reference
use react_native_pushy.Flow.Hash.Laws.{murmurhash3_32_gc-eq-murmur3}
use react_native_pushy.Flow.Urls.{strip_slashes, has_scheme, join_url, join_urls}
use react_native_pushy.Flow.Endpoints.{fraction, dedupe_endpoints, order_endpoint_candidates}
use react_native_pushy.Flow.Endpoints.Laws.{order_endpoint_candidates-perm}
use react_native_pushy.Flow.Request.{CheckRequestInput, build_check_request_body}
use react_native_pushy.Flow.Request.Laws.{root_value, get-build_check_request_body}
use react_native_pushy.Flow.Verdict.{UpdateIdentity, resolve_check_result}
use react_native_pushy.Flow.Verdict.Laws.{offers_running, offers_running-resolve_check_result}
use react_native_pushy.Flow.Plan.{
  UpdateInfo, diff, full, DownloadPlan, nothing, rolled_back, download, DownloadIdentity,
  is_version, attempts_of, decide_download,
}
use react_native_pushy.Flow.Plan.Laws.{decide_download-guards}
use react_native_pushy.Flow.Verdict.Members.{decided_member, get-resolve_check_result}

murmurhash3_32_gc-eq-murmur3_example :
    murmurhash3_32_gc (units "hello") 0 ≡ Reference.murmur3 (units "hello") 0
murmurhash3_32_gc-eq-murmur3_example = murmurhash3_32_gc-eq-murmur3 (units "hello") 0

-- The bucket of "test1" is 62.
rollout_runs : (is_in_rollout (pos 62) "test1" ≡ false) × (is_in_rollout (pos 63) "test1" ≡ true)
unfolding is_in_rollout murmurhash3_32_gc blocks mix_k mix_h mul_split add_split finish_hash
rollout_runs = (refl, refl)

abbrev mirrors : List String
mirrors = "cdn.example.com/" ∷ "http://10.0.2.2:8080" ∷ []

abbrev joined : List String
joined = "https://cdn.example.com/a.ppk" ∷ "http://10.0.2.2:8080/a.ppk" ∷ []

join_urls_runs : join_urls mirrors "a.ppk" ≡ some joined
unfolding join_urls join_url strip_slashes has_scheme
join_urls_runs = refl

abbrev configured : List (Option String)
configured = some "https://a" ∷ none ∷ some "https://b" ∷ some "https://a" ∷ some "" ∷ []

order_runs :
    (order_endpoint_candidates configured (fraction 1 1) ≡ "https://b" ∷ "https://a" ∷ [])
    × (dedupe_endpoints configured ≡ "https://a" ∷ "https://b" ∷ [])
unfolding order_endpoint_candidates dedupe_endpoints
order_runs = (refl, refl)

order_endpoint_candidates-perm_example :
    Perm (order_endpoint_candidates configured (fraction 1 1)) (dedupe_endpoints configured)
    × ((i : ℕ)
        → i < length (dedupe_endpoints configured)
        → 1 < length (dedupe_endpoints configured)
        → get_or
            (order_endpoint_candidates configured
              (fraction i (length (dedupe_endpoints configured) - 1)))
            0
            ""
          ≡ get_or (dedupe_endpoints configured) i "")
order_endpoint_candidates-perm_example = order_endpoint_candidates-perm configured (fraction 1 1)

abbrev extras : Fields
extras = entry "packageVersion" (str "9.9") (entry "channel" (str "beta") no_fields)

abbrev request : CheckRequestInput
request = record {
  package_version = "1.0";
  current_version = some "h1";
  build_time = "t";
  c_info = entry "uuid" (str "u") no_fields;
  supported_diff_version = some 2;
  bundle_hash = some "";
  is_dev = false;
  extra = some extras;
}

extras-HasDistinctKeys : HasDistinctKeys extras
unfolding has
extras-HasDistinctKeys = (refl, (refl, tt))

get-build_check_request_body_example :
    get "packageVersion" (build_check_request_body request) ≡ root_value request "packageVersion"
get-build_check_request_body_example =
    get-build_check_request_body "packageVersion" request extras-HasDistinctKeys refl

channel-extras : get "channel" extras ≢ undef
unfolding get
channel-extras h = cc

abbrev candidate : Fields
candidate = entry "hash" (str "h2") (
    entry "name" (str "gray") (
      entry "full" (str "h2.ppk") (
        entry "config"
          (obj (entry "rollout" (obj (entry "1.0" (num (pos 63)) no_fields)) no_fields))
          no_fields)))

abbrev answer : Fields
answer = entry "update" (bool true) (
    entry "hash" (str "h1") (
      entry "paths" (arr (item (str "cdn.example.com") no_items))
        (entry "expVersion" (obj candidate) no_fields)))

abbrev device : UpdateIdentity
device = record { package_version = "1.0"; current_version = some "h1"; uuid = "test1" }

candidate-HasDistinctKeys : HasDistinctKeys candidate
unfolding has
candidate-HasDistinctKeys = (refl, (refl, (refl, (refl, tt))))

offers_running-resolve_check_result_example :
    offers_running (resolve_check_result answer device) device ≡ false
unfolding get
offers_running-resolve_check_result_example =
    offers_running-resolve_check_result answer device candidate-HasDistinctKeys

get-resolve_check_result_example :
    get "paths" (resolve_check_result answer device) ≡ decided_member "paths" answer device
unfolding get
get-resolve_check_result_example =
    get-resolve_check_result "paths" answer device candidate-HasDistinctKeys

abbrev offered : UpdateInfo
offered = record {
  update = true;
  hash = "h2";
  diff = "h1-h2.diff";
  pdiff = "";
  full = "h2.ppk";
  paths = "cdn.example.com" ∷ [];
}

abbrev running : DownloadIdentity
running = record { current_version = some "h1"; rolled_back_version = none }

abbrev offered_plan : DownloadPlan
offered_plan = record {
  hash = "h2";
  attempts =
      record { strategy = diff; urls = "https://cdn.example.com/h1-h2.diff" ∷ [] }
      ∷ record { strategy = full; urls = "https://cdn.example.com/h2.ppk" ∷ [] }
      ∷ [];
  dev_noop = false;
}

decide_download_runs :
    (decide_download offered running false ≡ download offered_plan)
    × (decide_download offered
          (record { current_version = some "h1"; rolled_back_version = some "h2" })
          false
        ≡ nothing rolled_back)
unfolding decide_download attempts_of join_urls join_url strip_slashes has_scheme
decide_download_runs = (refl, refl)

decide_download-guards_example :
    (offered.update ≡ true)
    × (offered.hash ≢ "")
    × (offered_plan.hash ≡ offered.hash)
    × (is_version offered.hash running.current_version ≡ false)
    × (is_version offered.hash running.rolled_back_version ≡ false)
decide_download-guards_example =
    decide_download-guards offered running false {plan = offered_plan} decide_download_runs.0
