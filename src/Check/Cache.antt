-- ===== src/Check/Cache.antt =====
-- readNativeCheckCache (src/clientCheck.ts): when the response that the native cold-start check left
-- on disk answers a check of JavaScript.
pub mod Laws
use react_native_pushy.Common.{
  ℕ, ◌+◌, ◌*◌, String, Bool, true, false, not, ◌&&◌, ◌||◌, ◌==◌, leb, Option, none, some,
  if◌then◌else◌,
}
use react_native_pushy.Common.Int.{ℤ, pos, negsuc}
use react_native_pushy.Json.{Value, undef, num, str, obj, Fields, member}
use react_native_pushy.Json.Equal.{json_deep_equal}
use react_native_pushy.Flow.Verdict.{is_valid_check_result}
use react_native_pushy.NativeConfig.Canonical.{native_configs_equivalent}

-- What the read finds: the flags, what the native method gives, none where it throws, the clock in
-- milliseconds, and the current native configuration.
pub record CacheEnv : Type 0 where
  pub is_dev : Bool
  pub exhausted : Bool
  pub has_method : Bool
  pub raw : Option Value
  pub now : ℕ
  pub config_json : Option String

-- The response that is reused, if any, and the flag `nativeCheckCacheExhausted` after the read.
pub record CacheRead : Type 0 where
  pub result : Option Fields
  pub exhausted : Bool

abbrev pub max_age : ℕ
max_age = 120

-- `ageSeconds >= 0 && ageSeconds <= NATIVE_CHECK_CACHE_MAX_AGE_S`; an age that is not a number fails.
abbrev pub is_fresh : Value → ℕ → Bool
is_fresh (num (pos ts)) now = leb (1000 * ts) now && leb now (1000 * (ts + max_age))
is_fresh _ now = false

abbrev pub same_request : Option Value → Fields → Bool
same_request none body = false
same_request (some v) body = json_deep_equal v (obj body)

abbrev pub verdict_in : Option Value → Option Fields
verdict_in (some (obj fs)) = if is_valid_check_result (obj fs) then some fs else none
verdict_in _ = none

module _ (parse : String → Option Value) where
  -- The three texts of an entry, and the configuration that JavaScript would sync now.
  unfoldable pub matching_body : Value → Value → Value → Option String → Fields → Option Fields
  unfolding native_configs_equivalent
  matching_body (str body) (str request) (str config) (some config_json) request_body =
      if config_json == ""
      then none
      else if not (native_configs_equivalent parse config config_json)
      then none
      else if same_request (parse request) request_body
      then verdict_in (parse body)
      else none
  matching_body _ _ _ _ request_body = none

  -- Behind JSON.parse: an entry that is no object has no member.
  unfoldable pub read_entry : CacheEnv → Fields → Value → CacheRead
  unfolding matching_body
  read_entry env request_body entry =
      if not (is_fresh (member "ts" entry) env.now)
      then record { result = none; exhausted = true }
      else record {
        result =
            matching_body (member "body" entry) (member "request" entry) (member "config" entry)
              env.config_json request_body;
        exhausted = env.exhausted;
      }

  abbrev pub read_parsed : CacheEnv → Fields → Option Value → CacheRead
  unfolding read_entry
  read_parsed env request_body none = record { result = none; exhausted = env.exhausted }
  read_parsed env request_body (some entry) = read_entry env request_body entry

  unfoldable pub read_raw : CacheEnv → Fields → Option Value → CacheRead
  unfolding read_entry
  read_raw env request_body none = record { result = none; exhausted = env.exhausted }
  read_raw env request_body (some (str raw)) =
      if raw == ""
      then record { result = none; exhausted = true }
      else read_parsed env request_body (parse raw)
  read_raw env request_body (some v) = record { result = none; exhausted = true }

  unfoldable pub read_native_check_cache : CacheEnv → Fields → CacheRead
  unfolding read_raw
  read_native_check_cache env request_body =
      if env.is_dev || env.exhausted || not env.has_method
      then record { result = none; exhausted = env.exhausted }
      else read_raw env request_body env.raw
