-- ===== src/Flow/Request/Laws.antt =====
-- The members of a check request body (src/updateFlowCore.ts).
use react_native_pushy.Common.{ℕ, zero, suc, String, Bool, true, false, ◌&&◌, ◌==◌, if◌then◌else◌}
use react_native_pushy.Common.{Option, none, some, ◌≡◌, refl, arith, eq_iff}
use react_native_pushy.Common.{Bool-cases, inl, inr}
use react_native_pushy.Common.{◌≢◌}
use react_native_pushy.Common.Int.{pos}
use react_native_pushy.Json.{Value, undef, num, str, obj, Fields, no_fields, entry}
use react_native_pushy.Json.{get, has, put, del, merge, is_undef, HasDistinctKeys}
use react_native_pushy.Json.Laws.{get-merge, get-put, get-del, get-eq-undef}
use react_native_pushy.Flow.Request.{
  CheckRequestInput, text_value, extra_fields, identity_body, with_diff_version, with_bundle_hash,
  defined_from, is_empty, with_extra, build_check_request_body,
}

-- `diffV` is the supported version, and absent where that is unknown or 0.
abbrev pub diff_value : Option ℕ → Value
diff_value (some (suc n)) = num (pos (suc n))
diff_value _ = undef

get-with_diff_version :
    (j : String) (v : Option ℕ) (body : Fields)
    → get j (with_diff_version v body) ≡ (if "diffV" == j then diff_value v else get j body)
unfolding with_diff_version
get-with_diff_version j (some (suc n)) body = rw get-put refl
get-with_diff_version j (some zero) body = rw get-del refl
get-with_diff_version j none body = rw get-del refl

get-del_if :
    (j k : String) (dev : Bool) (body : Fields)
    → get j (if dev then del k body else body) ≡ (if dev && k == j then undef else get j body)
get-del_if j k true body = get-del j k body
get-del_if j k false body = refl

-- `bundleHash` is the hash, and absent where that is unknown or "".
abbrev pub bundle_value : Option String → Value
bundle_value none = undef
bundle_value (some s) = if s == "" then undef else str s

get-with_bundle_hash :
    (j : String) (h : Option String) (body : Fields)
    → get j (with_bundle_hash h body) ≡ (if "bundleHash" == j then bundle_value h else get j body)
unfolding with_bundle_hash
get-with_bundle_hash j none body = rw get-del refl
get-with_bundle_hash j (some s) body = elim (Bool-cases (s == "")) [
  | inl e ↦ rw (e, get-del) refl
  | inr e ↦ rw (e, get-put) refl
]

get-with_extra :
    (j : String) (extra : Option Fields) (body : Fields)
    → ("extra" == j) ≡ false
    → get j (with_extra extra body) ≡ get j body
unfolding with_extra
get-with_extra j none body h = refl
get-with_extra j (some extra) body h = elim (Bool-cases (is_empty (defined_from no_fields extra))) [
  | inl e ↦ rw e refl
  | inr e ↦ rw (e, get-put, h) refl
]

-- The body's members outside `extra`, as a function of the key.
abbrev pub root_value : CheckRequestInput → String → Value
root_value input j =
    if input.is_dev && "buildTime" == j
    then undef
    else if "bundleHash" == j
    then bundle_value input.bundle_hash
    else if "diffV" == j
    then diff_value input.supported_diff_version
    else if "cInfo" == j
    then obj input.c_info
    else if "buildTime" == j
    then str input.build_time
    else if "hash" == j
    then text_value input.current_version
    else if "packageVersion" == j
    then str input.package_version
    else get j (extra_fields input.extra)

get-end : (j : String) → get j no_fields ≡ undef
unfolding get
get-end j = refl

-- Spreading into an empty object keeps every member.
get-merge_end :
    (j : String) (fs : Fields) → HasDistinctKeys fs → get j (merge no_fields fs) ≡ get j fs
get-merge_end j fs d = elim (Bool-cases (has j fs)) [
  | inl own ↦ rw (get-merge j no_fields fs d, own) refl
  | inr missing ↦ rw (get-merge j no_fields fs d, missing, get-eq-undef j fs missing) (get-end j)
]

get-identity_body :
    (j : String) (input : CheckRequestInput)
    → HasDistinctKeys (extra_fields input.extra)
    → get j (identity_body input) ≡ (
        if "cInfo" == j
        then obj input.c_info
        else if "buildTime" == j
        then str input.build_time
        else if "hash" == j
        then text_value input.current_version
        else if "packageVersion" == j
        then str input.package_version
        else get j (extra_fields input.extra))
unfolding identity_body
get-identity_body j input d = simp (get-put, get-merge_end j (extra_fields input.extra) d)

-- Whatever the caller's extras, the body holds the SDK's own members: no extra overrides the package
-- version, the running hash, the client info, the build time (absent in development), the diff
-- version (absent where it is unknown or 0) or the bundle hash (absent where it is unknown). Every
-- other key but `extra` is the caller's.
pub get-build_check_request_body :
    (j : String) (input : CheckRequestInput)
    → HasDistinctKeys (extra_fields input.extra)
    → ("extra" == j) ≡ false
    → get j (build_check_request_body input) ≡ root_value input j
unfolding build_check_request_body
get-build_check_request_body j input d h =
    rw
      (
        get-with_extra j input.extra _ h,
        get-del_if,
        get-with_bundle_hash,
        get-with_diff_version,
        get-identity_body j input d,
      )
      refl

get-defined_from :
    (j : String) (acc fs : Fields)
    → HasDistinctKeys fs
    → get j (defined_from acc fs) ≡ (if is_undef (get j fs) then get j acc else get j fs)
unfolding defined_from get has
get-defined_from j acc no_fields d = refl
get-defined_from j acc (entry k v fs) (fresh, d) = ground (
  arith,
  get-defined_from j acc fs d,
  get-defined_from j (put k v acc) fs d,
  get-put j k v acc,
  get-eq-undef j fs,
  eq_iff k j,
)

is_empty-eq-false : (fs : Fields) (k : String) → get k fs ≢ undef → is_empty fs ≡ false
unfolding get
is_empty-eq-false no_fields k h = absurd (h refl)
is_empty-eq-false (entry j v fs) k h = refl

get-defined :
    (j : String) (fs : Fields) → HasDistinctKeys fs → get j (defined_from no_fields fs) ≡ get j fs
get-defined j fs d = ground (arith, get-defined_from j no_fields fs d, get-end j)

-- Where the caller's extras have a defined member, the body also carries them nested under `extra`,
-- with the value of every key unchanged.
extra-build_check_request_body :
    (input : CheckRequestInput) (extra : Fields) (k : String)
    → input.extra ≡ some extra
    → HasDistinctKeys extra
    → get k extra ≢ undef
    → (copy : Fields) × (get "extra" (build_check_request_body input) ≡ obj copy)
      × ((j : String) → get j copy ≡ get j extra)
unfolding build_check_request_body with_extra
extra-build_check_request_body input extra k given d defined =
    let full : is_empty (defined_from no_fields extra) ≡ false =
      is_empty-eq-false _ k (rw (get-defined k extra d) defined) in
    (defined_from no_fields extra, rw (given, full, get-put) refl, λ j. get-defined j extra d)
