-- ===== src/Flow/Verdict/Laws.antt =====
-- The answers of the per-device decision (src/updateFlowCore.ts).
use react_native_pushy.Common.{String, Bool, true, false, ◌&&◌, ◌==◌}
use react_native_pushy.Common.{◌≡◌, refl, arith, Bool-cases, inl, inr}
use react_native_pushy.Common.Int.{ℤ}
use react_native_pushy.Json.{Value, undef, null, bool, num, str, arr, obj, Fields, no_fields, entry}
use react_native_pushy.Json.{get, has, del, merge, member, truthy, HasDistinctKeys}
use react_native_pushy.Json.Laws.{
  get-put, has-put, get-del, has-del, get-merge, has-merge, get-eq-undef, del_of_missing,
}
use react_native_pushy.Flow.Hash.{is_in_rollout}
use react_native_pushy.Flow.Verdict.{
  UpdateIdentity, runs_already, fields_of, up_to_date, candidate_info, resolve_root,
  resolve_rollout, resolve_by, rollout_of, resolve_check_result,
}

-- The answer offers an update to the version that already runs.
abbrev pub offers_running : Fields → UpdateIdentity → Bool
offers_running result identity =
    truthy (get "update" result) && runs_already (get "hash" result) identity.current_version

offers_running-up_to_date : (identity : UpdateIdentity) → offers_running up_to_date identity ≡ false
unfolding get
offers_running-up_to_date identity = refl

offers_running-resolve_root :
    (root : Fields) (identity : UpdateIdentity)
    → offers_running (resolve_root root identity) identity ≡ false
unfolding resolve_root
offers_running-resolve_root root identity = elim (Bool-cases (offers_running root identity)) [
  | inl same ↦ rw same (offers_running-up_to_date identity)
  | inr other ↦ rw other other
]

get-candidate_info :
    (j : String) (root : Fields) (exp : Value)
    → HasDistinctKeys (fields_of exp)
    → ("paths" == j) ≡ false
    → ("update" == j) ≡ false
    → get j (candidate_info root exp) ≡ get j (fields_of exp)
unfolding candidate_info get
get-candidate_info j root exp d not_paths not_update = ground (
  arith,
  get-put j "paths" (get "paths" root)
      (merge (entry "update" (bool true) no_fields) (fields_of exp)),
  get-merge j (entry "update" (bool true) no_fields) (fields_of exp) d,
  get-eq-undef j (fields_of exp),
)

member-fields_of : (j : String) (exp : Value) → member j exp ≡ get j (fields_of exp)
unfolding member get
member-fields_of j (obj fs) = refl
member-fields_of j undef = refl
member-fields_of j null = refl
member-fields_of j (bool b) = refl
member-fields_of j (num n) = refl
member-fields_of j (str s) = refl
member-fields_of j (arr xs) = refl

offers_running-resolve_rollout :
    (rollout : ℤ) (root : Fields) (exp : Value) (identity : UpdateIdentity)
    → HasDistinctKeys (fields_of exp)
    → offers_running (resolve_rollout rollout root exp identity) identity ≡ false
unfolding resolve_rollout
offers_running-resolve_rollout rollout root exp identity d =
    elim (Bool-cases (is_in_rollout rollout identity.uuid)) [
      | inr out ↦ rw out (offers_running-resolve_root root identity)
      | inl in_it ↦ elim (Bool-cases (runs_already (member "hash" exp) identity.current_version)) [
        | inl same ↦ rw (in_it, same) (offers_running-up_to_date identity)
        | inr other ↦
            rw (in_it, other)
              (ground (
                arith,
                get-candidate_info "hash" root exp d refl refl,
                member-fields_of "hash" exp,
              ))
      ]
    ]

offers_running-resolve_by :
    (rollout : Value) (root : Fields) (exp : Value) (identity : UpdateIdentity)
    → HasDistinctKeys (fields_of exp)
    → offers_running (resolve_by rollout root exp identity) identity ≡ false
unfolding resolve_by
offers_running-resolve_by (num rollout) root exp identity d =
    elim (Bool-cases (truthy (get "update" root) && truthy exp)) [
      | inl gray ↦ rw gray (offers_running-resolve_rollout rollout root exp identity d)
      | inr plain ↦ rw plain (offers_running-resolve_root root identity)
    ]
offers_running-resolve_by _ root exp identity d = offers_running-resolve_root root identity

-- Whatever the server answers, in and out of a rollout, the decision never offers an update to the
-- version that already runs.
pub offers_running-resolve_check_result :
    (root_info : Fields) (identity : UpdateIdentity)
    → HasDistinctKeys (fields_of (get "expVersion" root_info))
    → offers_running (resolve_check_result root_info identity) identity ≡ false
unfolding resolve_check_result
offers_running-resolve_check_result root_info identity d =
    offers_running-resolve_by _ _ _ identity d

has-up_to_date : has "expVersion" up_to_date ≡ false
unfolding has
has-up_to_date = refl

has-resolve_root :
    (root : Fields) (identity : UpdateIdentity)
    → has "expVersion" root ≡ false
    → has "expVersion" (resolve_root root identity) ≡ false
unfolding resolve_root
has-resolve_root root identity h = elim (Bool-cases (offers_running root identity)) [
  | inl same ↦ rw same has-up_to_date
  | inr other ↦ rw other h
]

has-candidate_info :
    (root : Fields) (exp : Value)
    → has "expVersion" (fields_of exp) ≡ false
    → has "expVersion" (candidate_info root exp) ≡ false
unfolding candidate_info has
has-candidate_info root exp h = ground (
  arith,
  has-put "expVersion" "paths" (get "paths" root)
      (merge (entry "update" (bool true) no_fields) (fields_of exp)),
  has-merge "expVersion" (entry "update" (bool true) no_fields) (fields_of exp),
)

has-resolve_rollout :
    (rollout : ℤ) (root : Fields) (exp : Value) (identity : UpdateIdentity)
    → has "expVersion" root ≡ false
    → has "expVersion" (fields_of exp) ≡ false
    → has "expVersion" (resolve_rollout rollout root exp identity) ≡ false
unfolding resolve_rollout
has-resolve_rollout rollout root exp identity h k =
    ground (arith, has-resolve_root root identity h, has-candidate_info root exp k, has-up_to_date)

has-resolve_by :
    (rollout : Value) (root : Fields) (exp : Value) (identity : UpdateIdentity)
    → has "expVersion" root ≡ false
    → has "expVersion" (fields_of exp) ≡ false
    → has "expVersion" (resolve_by rollout root exp identity) ≡ false
unfolding resolve_by
has-resolve_by (num rollout) root exp identity h k =
    ground
      (arith, has-resolve_root root identity h, has-resolve_rollout rollout root exp identity h k)
has-resolve_by _ root exp identity h k = has-resolve_root root identity h

resolve_check_result_of_settled :
    (result : Fields) (identity : UpdateIdentity)
    → has "expVersion" result ≡ false
    → offers_running result identity ≡ false
    → resolve_check_result result identity ≡ result
unfolding resolve_check_result resolve_by resolve_root member
resolve_check_result_of_settled result identity h settled =
    rw (get-eq-undef "expVersion" result h, del_of_missing "expVersion" result h, settled) refl

-- The decision is idempotent: deciding again on its own answer changes nothing, for a candidate
-- that nests no further candidate.
resolve_check_result_idem :
    (root_info : Fields) (identity : UpdateIdentity)
    → HasDistinctKeys (fields_of (get "expVersion" root_info))
    → has "expVersion" (fields_of (get "expVersion" root_info)) ≡ false
    → resolve_check_result (resolve_check_result root_info identity) identity
      ≡ resolve_check_result root_info identity
resolve_check_result_idem root_info identity d flat =
    resolve_check_result_of_settled _ identity
      (unfold resolve_check_result in
        has-resolve_by _ _ _ identity (ground (arith, has-del "expVersion" "expVersion" root_info))
          flat)
      (offers_running-resolve_check_result root_info identity d)

pub truthy_of_rollout :
    (exp : Value) (version : String) (rollout : ℤ)
    → rollout_of exp version ≡ num rollout
    → truthy exp ≡ true
unfolding member
truthy_of_rollout (obj fs) version rollout h = refl
truthy_of_rollout undef version rollout h = cc
truthy_of_rollout null version rollout h = cc
truthy_of_rollout (bool b) version rollout h = cc
truthy_of_rollout (num n) version rollout h = cc
truthy_of_rollout (str s) version rollout h = cc
truthy_of_rollout (arr xs) version rollout h = cc

-- With a candidate that has a rollout for this package version, the rollout alone decides.
resolve_check_result_of_rollout :
    (root_info : Fields) (identity : UpdateIdentity) (rollout : ℤ)
    → rollout_of (get "expVersion" root_info) identity.package_version ≡ num rollout
    → truthy (get "update" root_info) ≡ true
    → resolve_check_result root_info identity
      ≡ resolve_rollout rollout (del "expVersion" root_info) (get "expVersion" root_info) identity
unfolding resolve_check_result resolve_by
resolve_check_result_of_rollout root_info identity rollout number update =
    let exp : truthy (get "expVersion" root_info) ≡ true =
      truthy_of_rollout _ identity.package_version rollout number in
    let still : truthy (get "update" (del "expVersion" root_info)) ≡ true =
      rw (get-del "update" "expVersion" root_info) update in
    rw (number, resolve_by, still, exp) refl
