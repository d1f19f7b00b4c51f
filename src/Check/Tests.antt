-- ===== src/Check/Tests.antt =====
-- The theorems on the update check (src/clientCheck.ts) at concrete inputs, and runs of it.
use react_native_pushy.Common.Pool.{count_if}
use react_native_pushy.Json.{merge, put}
use react_native_pushy.Json.Equal.{json_deep_equal}
use react_native_pushy.Common.{
  ℕ, String, true, false, ◌≡◌, refl, arith, Option, none, some, List, [], ◌∷◌, ◌==◌, if◌then◌else◌,
}
use react_native_pushy.Common.Int.{pos}
use react_native_pushy.Json.{
  Value, undef, bool, num, str, arr, obj, no_items, item, Fields, no_fields, entry, get, member,
}
use react_native_pushy.Flow.Verdict.{is_valid_check_result}
use react_native_pushy.Download.Mirrors.{starts_with}
use react_native_pushy.Check.{Reply, responds, get_remote_endpoints, request_check_result, verdict}
use react_native_pushy.Check.Laws.{IsRemote, get_remote_endpoints-https}
use react_native_pushy.Check.Cache.{CacheEnv, is_fresh, read_native_check_cache}
use react_native_pushy.Check.Cache.Laws.{Answers, Answers-read_native_check_cache}
use react_native_pushy.Check.Window.{
  Listener, Env, Question, answered, failed, allows, hook_throws, Event, checks, settles, resumes,
  World, init, run,
}
use react_native_pushy.Check.Window.Counts.{told, is_notice}
use react_native_pushy.Check.Window.Spacing.{run-init-AreSpaced}
use react_native_pushy.Check.Window.Slot.{AreSpaced, VoidIn}

abbrev page : Reply
page = responds (record { ok = false; status = 404; text = some "<html>"; json = none })

abbrev mirror_list : Reply
mirror_list = responds (record {
  ok = true;
  status = 200;
  text = none;
  json = some (arr (item (str "http://plain") (item (str "HTTPS://a") (item undef no_items))));
})

get_remote_endpoints-https_example : IsRemote (page ∷ mirror_list ∷ []) ("HTTPS://a" ∷ [])
unfolding get_remote_endpoints starts_with
get_remote_endpoints-https_example =
    get_remote_endpoints-https ("q1" ∷ "q2" ∷ []) (page ∷ mirror_list ∷ []) ("HTTPS://a" ∷ []) refl

abbrev up_to_date_reply : Reply
up_to_date_reply = responds (record {
  ok = true;
  status = 200;
  text = none;
  json = some (obj (entry "upToDate" (bool true) no_fields));
})

accepted : request_check_result up_to_date_reply ≡ verdict (entry "upToDate" (bool true) no_fields)
unfolding request_check_result is_valid_check_result get
accepted = refl

abbrev cached : Fields
cached =
    entry "ts" (num (pos 100))
      (entry "body" (str "B") (entry "request" (str "R") (entry "config" (str "C") no_fields)))

abbrev config_fields : Fields
config_fields = entry "appKey" (str "k") no_fields

abbrev up_to_date_fields : Fields
up_to_date_fields = entry "upToDate" (bool true) no_fields

abbrev parse_cached : String → Option Value
parse_cached s =
    if s == "E"
    then some (obj cached)
    else if s == "B"
    then some (obj up_to_date_fields)
    else some (obj config_fields)

abbrev cold_start : CacheEnv
cold_start = record {
  is_dev = false;
  exhausted = false;
  has_method = true;
  raw = some (str "E");
  now = 130_500;
  config_json = some "C";
}

Answers-read_native_check_cache_example :
    (raw : String) × (entry : Value) × (cold_start.is_dev ≡ false)
    × (cold_start.exhausted ≡ false)
    × (cold_start.raw ≡ some (str raw))
    × (parse_cached raw ≡ some entry)
    × (is_fresh (member "ts" entry) cold_start.now ≡ true)
    × Answers parse_cached cold_start config_fields entry up_to_date_fields
unfolding read_native_check_cache member json_deep_equal merge put is_valid_check_result
Answers-read_native_check_cache_example =
    Answers-read_native_check_cache parse_cached cold_start config_fields up_to_date_fields refl

abbrev device : Env
device = record {
  is_dev = false;
  debug = false;
  is_web = false;
  has_hook = false;
  throw_error = false;
  identity = record { package_version = "1.0"; current_version = none; uuid = "u" };
}

abbrev at_time : ℕ → Question
at_time now = record { now = now; fingerprint = "f" }

abbrev calm : Listener
calm = record { throws_on_state = false; throws_on_error = false }

abbrev harsh : Listener
harsh = record { throws_on_state = true; throws_on_error = false }

-- Two calls share a round that fails; the call after it asks again within the window,
-- and its listener throws on the result.
abbrev shared_failure : List Event
shared_failure =
    checks calm (at_time 1000)
    ∷ checks calm (at_time 2000)
    ∷ settles 0 failed
    ∷ resumes 1 allows calm (at_time 2500)
    ∷ checks calm (at_time 3000)
    ∷ settles 1 (answered up_to_date_fields)
    ∷ resumes 0 allows harsh (at_time 3500)
    ∷ []

-- The last call is told twice.
told_twice : told is_notice 2 (run device shared_failure init) ≡ 2
unfolding run init count_if get
told_twice = refl

run-init-AreSpaced_example :
    AreSpaced (VoidIn (run device shared_failure init)) (run device shared_failure init).rounds
run-init-AreSpaced_example =
    run-init-AreSpaced device shared_failure
      (omega arith, (omega arith, (tt, (omega arith, (omega arith, (tt, (omega arith, tt)))))))

abbrev second_round : World → ℕ
second_round w = w.next_round

shared_failure_rounds : second_round (run device shared_failure init) ≡ 2
unfolding run init
shared_failure_rounds = refl

-- A hook that throws: the call is rejected and `afterCheckUpdate` is not told.
hook_throws_run :
    (run
      (record device { has_hook = true })
      (checks calm (at_time 1000) ∷ resumes 0 hook_throws calm (at_time 1000) ∷ [])
      init).waiting
    ≡ []
unfolding run init
hook_throws_run = refl
