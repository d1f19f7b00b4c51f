-- ===== src/NativeConfig/Canonical/Laws.antt =====
-- What the canonical form of a native configuration (src/updateFlowCore.ts) holds under each key.
use react_native_pushy.Common.{
  String, true, false, ◌==◌, if◌then◌else◌, Option, some, ◌≡◌, refl, ◌↔◌, arith, eq_iff, eq_sym,
  subst,
}
use react_native_pushy.Json.{
  Value, obj, Fields, no_fields, entry, get, has, put, merge, HasDistinctKeys,
}
use react_native_pushy.Json.Laws.{get-put, get-merge, put-HasDistinctKeys, get-eq-undef}
use react_native_pushy.Json.Equal.{json_deep_equal}
use react_native_pushy.Json.Equal.Laws.{json_deep_equal-get}
use react_native_pushy.NativeConfig.Canonical.Lists.{url_list, canonical_url_list-url_list}
use react_native_pushy.NativeConfig.Canonical.{
  native_config_defaults, canonical_url_list, canonical_key, canonicalize_parsed,
  canonicalize_native_config, native_configs_equivalent,
}

-- A member with its default, its list of URLs without trailing slashes and duplicates.
unfoldable pub canonical_member : String → Fields → Value
canonical_member k fs =
    let v = if has k fs then get k fs else get k native_config_defaults in
    if (k == "endpoints") then url_list v else if (k == "queryUrls") then url_list v else v

merge-HasDistinctKeys : (a b : Fields) → HasDistinctKeys a → HasDistinctKeys (merge a b)
unfolding merge
merge-HasDistinctKeys a no_fields d = d
merge-HasDistinctKeys a (entry k v b) d =
    merge-HasDistinctKeys (put k v a) b (put-HasDistinctKeys k v a d)

canonical_key-HasDistinctKeys :
    (k : String) (fs : Fields) → HasDistinctKeys fs → HasDistinctKeys (canonical_key k fs)
unfolding canonical_key
canonical_key-HasDistinctKeys k fs d =
    ground (arith, put-HasDistinctKeys k (canonical_url_list (get k fs)) fs)

get-canonical_key :
    (k key : String) (fs : Fields)
    → get k (canonical_key key fs) ≡ (if key == k then url_list (get k fs) else get k fs)
unfolding canonical_key url_list
get-canonical_key k key fs = ground (
  arith,
  get-put k key (canonical_url_list (get key fs)) fs,
  get-eq-undef key fs,
  eq_iff key k,
  canonical_url_list-url_list (get key fs),
)

abbrev canonical_fields : Fields → Fields
canonical_fields fs =
    canonical_key "queryUrls" (canonical_key "endpoints" (merge native_config_defaults fs))

apart : (k : String) → ("endpoints" == k) ≡ true → ("queryUrls" == k) ≡ false
apart k h = subst (λ (t : String). ("queryUrls" == t) ≡ false) ((eq_iff "endpoints" k).0 h) refl

get-canonical_fields :
    (k : String) (fs : Fields)
    → HasDistinctKeys fs
    → get k (canonical_fields fs) ≡ canonical_member k fs
unfolding canonical_member
get-canonical_fields k fs d =
    let merged = merge native_config_defaults fs in
    ground (
      arith,
      get-canonical_key k "queryUrls" (canonical_key "endpoints" merged),
      get-canonical_key k "endpoints" merged,
      get-merge k native_config_defaults fs d,
      eq_sym k "endpoints",
      eq_sym k "queryUrls",
      apart k,
    )

defaults-HasDistinctKeys : HasDistinctKeys native_config_defaults
unfolding has
defaults-HasDistinctKeys = (refl, (refl, (refl, (refl, (refl, tt)))))

-- Two persisted configurations without a repeated key are equivalent exactly if under every key
-- their members are equal, each taken with its default where it is missing and of the URL
-- lists `endpoints` and `queryUrls` only the items that equal none before them, each text without its
-- trailing slashes.
pub native_configs_equivalent-get :
    (parse : String → Option Value) (left right : String) (fs gs : Fields)
    → HasDistinctKeys fs
    → HasDistinctKeys gs
    → parse left ≡ some (obj fs)
    → parse right ≡ some (obj gs)
    → (native_configs_equivalent parse left right ≡ true)
      ↔ ((k : String) → json_deep_equal (canonical_member k fs) (canonical_member k gs) ≡ true)
unfolding native_configs_equivalent canonicalize_native_config canonicalize_parsed
native_configs_equivalent-get parse left right fs gs d e l r =
    let distinct = λ (hs : Fields).
      canonical_key-HasDistinctKeys "queryUrls"
        (canonical_key "endpoints" (merge native_config_defaults hs))
        (canonical_key-HasDistinctKeys "endpoints" (merge native_config_defaults hs)
          (merge-HasDistinctKeys native_config_defaults hs defaults-HasDistinctKeys)) in
    let both =
      json_deep_equal-get (canonical_fields fs) (canonical_fields gs) (distinct fs) (distinct gs) in
    rw (l, r)
      (
        (λ h k.
            subst (λ v. json_deep_equal v (canonical_member k gs) ≡ true)
              (get-canonical_fields k fs d)
              (subst (λ v. json_deep_equal (get k (canonical_fields fs)) v ≡ true)
                (get-canonical_fields k gs e) (both.0 h k))),
        λ h. both.1 (λ k. rw (get-canonical_fields k fs d, get-canonical_fields k gs e) (h k)),
      )
