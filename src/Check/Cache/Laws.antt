-- ===== src/Check/Cache/Laws.antt =====
-- What has to agree before the native response (src/clientCheck.ts) is reused.
use react_native_pushy.Common.{
  String, true, false, not, ◌||◌, ◌==◌, Option, none, some, ◌≡◌, refl, arith, Bool-cases,
  Option-cases, inl, inr,
}
use react_native_pushy.Json.{Value, undef, null, bool, num, str, arr, obj, Fields, member}
use react_native_pushy.Json.Equal.{json_deep_equal}
use react_native_pushy.Flow.Verdict.{is_valid_check_result}
use react_native_pushy.NativeConfig.Canonical.{native_configs_equivalent}
use react_native_pushy.Check.Cache.{
  CacheEnv, is_fresh, matching_body, read_entry, read_raw, read_native_check_cache, verdict_in,
  same_request,
}

verdict_in-some :
    (v : Option Value) (fs : Fields)
    → verdict_in v ≡ some fs
    → (v ≡ some (obj fs)) × (is_valid_check_result (obj fs) ≡ true)
verdict_in-some none fs h = cc
verdict_in-some (some undef) fs h = cc
verdict_in-some (some null) fs h = cc
verdict_in-some (some (bool b)) fs h = cc
verdict_in-some (some (num b)) fs h = cc
verdict_in-some (some (str b)) fs h = cc
verdict_in-some (some (arr b)) fs h = cc
verdict_in-some (some (obj gs)) fs h = ground (arith, h)

question_of :
    (v : Option Value) (body : Fields)
    → same_request v body ≡ true
    → (question : Value) × (v ≡ some question) × (json_deep_equal question (obj body) ≡ true)
question_of none body h = cc
question_of (some v) body h = (v, refl, h)

module _ (parse : String → Option Value) where
  -- The entry on disk answers this request with this verdict.
  pub record Answers (env : CacheEnv) (request_body : Fields) (entry : Value) (fs : Fields)
      : Type 0 where
    pub body : String
    pub request : String
    pub config : String
    pub config_json : String
    pub question : Value
    pub body_text : member "body" entry ≡ str body
    pub request_text : member "request" entry ≡ str request
    pub config_text : member "config" entry ≡ str config
    pub current_config : env.config_json ≡ some config_json
    pub same_config : native_configs_equivalent parse config config_json ≡ true
    pub asked : parse request ≡ some question
    pub same_question : json_deep_equal question (obj request_body) ≡ true
    pub answered : parse body ≡ some (obj fs)
    pub valid : is_valid_check_result (obj fs) ≡ true

  -- The values of an entry's members, with what they hold.
  matching_body-some :
      (b r c : Value) (current : Option String) (request_body fs : Fields)
      → matching_body parse b r c current request_body ≡ some fs
      → (body : String) × (request : String) × (config : String) × (config_json : String)
        × (question : Value) × (b ≡ str body)
        × (r ≡ str request)
        × (c ≡ str config)
        × (current ≡ some config_json)
        × (native_configs_equivalent parse config config_json ≡ true)
        × (parse request ≡ some question)
        × (json_deep_equal question (obj request_body) ≡ true)
        × (parse body ≡ some (obj fs))
        × (is_valid_check_result (obj fs) ≡ true)
  unfolding matching_body
  matching_body-some (str b) (str r) (str c) (some now) request_body fs h =
      elim (Bool-cases (now == "")) [
        | inl e ↦ absurd (ground (arith, h, e))
        | inr e ↦ elim (Bool-cases (native_configs_equivalent parse c now)) [
          | inr f ↦ absurd (ground (arith, h, e, f))
          | inl f ↦ elim (Bool-cases (same_request (parse r) request_body)) [
            | inr g ↦ absurd (ground (arith, h, e, f, g))
            | inl g ↦
                let (v, p, q) = question_of (parse r) request_body g in
                let (a, k) = verdict_in-some (parse b) fs (ground (arith, h, e, f, g)) in
                (b, r, c, now, v, refl, refl, refl, refl, f, p, q, a, k)
          ]
        ]
      ]
  matching_body-some b r c current request_body fs h = ground arith

  Answers-read_entry :
      (env : CacheEnv) (request_body : Fields) (entry : Value) (fs : Fields)
      → (read_entry parse env request_body entry).result ≡ some fs
      → (is_fresh (member "ts" entry) env.now ≡ true) × Answers env request_body entry fs
  unfolding read_entry
  Answers-read_entry env request_body entry fs h =
      elim (Bool-cases (is_fresh (member "ts" entry) env.now)) [
        | inr e ↦ absurd (ground (arith, h, e))
        | inl e ↦
            let (b, r, c, j, v, p1, p2, p3, p4, p5, p6, p7, p8, p9) =
              matching_body-some (member "body" entry) (member "request" entry)
                (member "config" entry) env.config_json request_body fs (ground (arith, h, e)) in
            (
              e,
              record {
                body = b;
                request = r;
                config = c;
                config_json = j;
                question = v;
                body_text = p1;
                request_text = p2;
                config_text = p3;
                current_config = p4;
                same_config = p5;
                asked = p6;
                same_question = p7;
                answered = p8;
                valid = p9;
              },
            )
      ]

  Answers-read_raw :
      (env : CacheEnv) (request_body : Fields) (given : Option Value) (fs : Fields)
      → (read_raw parse env request_body given).result ≡ some fs
      → (raw : String) × (entry : Value) × (given ≡ some (str raw))
        × (parse raw ≡ some entry)
        × (is_fresh (member "ts" entry) env.now ≡ true)
        × Answers env request_body entry fs
  unfolding read_raw
  Answers-read_raw env request_body (some (str raw)) fs h = elim (Bool-cases (raw == "")) [
    | inl e ↦ absurd (ground (arith, h, e))
    | inr e ↦ elim (Option-cases (parse raw)) [
      | inl f ↦ absurd (ground (arith, h, e, f))
      | inr (entry, f) ↦
          let (fresh, answers) =
            Answers-read_entry env request_body entry fs (ground (arith, h, e, f)) in
          (raw, entry, refl, f, fresh, answers)
    ]
  ]
  Answers-read_raw env request_body given fs h = ground arith

  -- A native response is reused only outside development and before the cache counted as exhausted,
  -- if the entry on disk is at most 120 seconds old and not from the future, was stored under a
  -- configuration equivalent to the current one for a request equal to this one, and holds a valid
  -- verdict, which is the one that is reused.
  pub Answers-read_native_check_cache :
      (env : CacheEnv) (request_body fs : Fields)
      → (read_native_check_cache parse env request_body).result ≡ some fs
      → (raw : String) × (entry : Value) × (env.is_dev ≡ false)
        × (env.exhausted ≡ false)
        × (env.raw ≡ some (str raw))
        × (parse raw ≡ some entry)
        × (is_fresh (member "ts" entry) env.now ≡ true)
        × Answers env request_body entry fs
  unfolding read_native_check_cache
  Answers-read_native_check_cache env request_body fs h =
      elim (Bool-cases (env.is_dev || env.exhausted || not env.has_method)) [
        | inl e ↦ absurd (ground (arith, h, e))
        | inr e ↦
            let (raw, entry, given, read, fresh, answers) =
              Answers-read_raw env request_body env.raw fs (ground (arith, h, e)) in
            (raw, entry, ground (arith, e), ground (arith, e), given, read, fresh, answers)
      ]
