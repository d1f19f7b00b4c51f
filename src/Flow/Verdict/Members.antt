-- ===== src/Flow/Verdict/Members.antt =====
-- What the per-device decision (src/updateFlowCore.ts) holds under each key.
use react_native_pushy.Common.{String, Bool, true, false, ◌&&◌, ◌==◌}
use react_native_pushy.Common.{
  ◌≡◌, refl, arith, Bool-cases, inl, inr, if◌then◌else◌, eq_sym, ap, ◌∙◌,
}
use react_native_pushy.Common.Int.{ℤ}
use react_native_pushy.Json.{Value, undef, null, bool, num, str, arr, obj, Fields, no_fields, entry}
use react_native_pushy.Json.{get, has, del, merge, member, truthy, HasDistinctKeys}
use react_native_pushy.Json.Laws.{get-put, get-del, get-merge}
use react_native_pushy.Flow.Hash.{is_in_rollout}
use react_native_pushy.Flow.Verdict.{
  UpdateIdentity, runs_already, fields_of, up_to_date, candidate_info, resolve_root,
  resolve_rollout, resolve_by, rollout_of, resolve_check_result,
}
use react_native_pushy.Flow.Verdict.Laws.{truthy_of_rollout}

-- The root release, with its candidate, applies to nobody outside a rollout; a rollout that has a number for
-- the package version, and a root that is an update, hand the candidate to the devices inside it.
unfoldable pub is_chosen : Value → Bool → UpdateIdentity → Bool
is_chosen (num rollout) is_update identity = is_update && is_in_rollout rollout identity.uuid
is_chosen _ is_update identity = false

-- A member of the candidate as it is handed out: the root's download paths, if it has any, its own, and
-- `update` where it has none.
abbrev pub candidate_member : String → Fields → Fields → Value
candidate_member j root exp =
    if (j == "paths") && truthy (get "paths" root)
    then get "paths" root
    else if has j exp
    then get j exp
    else if j == "update"
    then bool true
    else undef

abbrev pub up_to_date_member : String → Value
up_to_date_member j = if j == "upToDate" then bool true else undef

-- A member of the decision, from the members of the response.
unfoldable pub decided_member : String → Fields → UpdateIdentity → Value
unfolding is_chosen
decided_member j root identity =
    let exp = get "expVersion" root in
    let is_update = truthy (get "update" root) in
    if is_chosen (rollout_of exp identity.package_version) is_update identity
    then (if runs_already (member "hash" exp) identity.current_version
        then up_to_date_member j
        else candidate_member j root (fields_of exp))
    else if is_update && runs_already (get "hash" root) identity.current_version
    then up_to_date_member j
    else if j == "expVersion"
    then undef
    else get j root

get-up_to_date : (j : String) → get j up_to_date ≡ up_to_date_member j
unfolding get
get-up_to_date j = ground (arith, eq_sym "upToDate" j)

get-candidate_member :
    (j : String) (root : Fields) (exp : Value)
    → HasDistinctKeys (fields_of exp)
    → get j (candidate_info (del "expVersion" root) exp) ≡ candidate_member j root (fields_of exp)
unfolding candidate_info get
get-candidate_member j root exp d = ground (
  arith,
  get-del "paths" "expVersion" root,
  get-put j "paths" (get "paths" root)
      (merge (entry "update" (bool true) no_fields) (fields_of exp)),
  get-merge j (entry "update" (bool true) no_fields) (fields_of exp) d,
  eq_sym "paths" j,
  eq_sym "update" j,
)

get-resolve_root :
    (j : String) (root : Fields) (identity : UpdateIdentity)
    → get j (resolve_root (del "expVersion" root) identity) ≡ (
        if truthy (get "update" root) && runs_already (get "hash" root) identity.current_version
        then up_to_date_member j
        else if j == "expVersion"
        then undef
        else get j root)
unfolding resolve_root
get-resolve_root j root identity =
    elim (Bool-cases
      (truthy (get "update" root) && runs_already (get "hash" root) identity.current_version)) [
        | inl e ↦
            simp (get-del "update" "expVersion" root, get-del "hash" "expVersion" root, e)
              (get-up_to_date j)
        | inr e ↦
            simp (get-del "update" "expVersion" root, get-del "hash" "expVersion" root, e)
              (ground (arith, get-del j "expVersion" root, eq_sym "expVersion" j))
      ]

get-resolve_rollout :
    (j : String) (rollout : ℤ) (root : Fields) (identity : UpdateIdentity)
    → HasDistinctKeys (fields_of (get "expVersion" root))
    → truthy (get "update" root) ≡ true
    → rollout_of (get "expVersion" root) identity.package_version ≡ num rollout
    → get j (resolve_rollout rollout (del "expVersion" root) (get "expVersion" root) identity)
      ≡ decided_member j root identity
unfolding resolve_rollout decided_member is_chosen
get-resolve_rollout j rollout root identity d update number =
    let exp = get "expVersion" root in
    elim (Bool-cases (is_in_rollout rollout identity.uuid)) [
      | inr out ↦ simp (number, update, out) (get-resolve_root j root identity ∙ simp update refl)
      | inl in_it ↦ elim (Bool-cases (runs_already (member "hash" exp) identity.current_version)) [
        | inl runs ↦ simp (number, update, in_it, runs) (get-up_to_date j)
        | inr other ↦ simp (number, update, in_it, other) (get-candidate_member j root exp d)
      ]
    ]

get-resolve_by :
    (j : String) (root : Fields) (identity : UpdateIdentity) (rollout : Value)
    → HasDistinctKeys (fields_of (get "expVersion" root))
    → rollout_of (get "expVersion" root) identity.package_version ≡ rollout
    → get j (resolve_by rollout (del "expVersion" root) (get "expVersion" root) identity)
      ≡ decided_member j root identity
unfolding resolve_by decided_member is_chosen
get-resolve_by j root identity undef d e = simp e (get-resolve_root j root identity)
get-resolve_by j root identity null d e = simp e (get-resolve_root j root identity)
get-resolve_by j root identity (bool b) d e = simp e (get-resolve_root j root identity)
get-resolve_by j root identity (str s) d e = simp e (get-resolve_root j root identity)
get-resolve_by j root identity (arr xs) d e = simp e (get-resolve_root j root identity)
get-resolve_by j root identity (obj fs) d e = simp e (get-resolve_root j root identity)
get-resolve_by j root identity (num n) d e =
    let exp = truthy_of_rollout (get "expVersion" root) identity.package_version n e in
    elim (Bool-cases (truthy (get "update" root))) [
      | inl update ↦
          let same : resolve_by (num n) (del "expVersion" root) (get "expVersion" root) identity
              ≡ resolve_rollout n (del "expVersion" root) (get "expVersion" root) identity =
            rw (get-del "update" "expVersion" root, update, exp) refl in
          ap (get j) same ∙ get-resolve_rollout j n root identity d update e
      | inr none ↦
          simp (get-del "update" "expVersion" root, none, exp, e)
            (get-resolve_root j root identity ∙ simp none refl)
    ]

-- Every member of the decision on a response, for every device: with a candidate that has a rollout number for
-- the package version, a root that is an update, and a device in the rollout, it is the candidate's,
-- with the root's `paths` where it has any and `update` true where the candidate says nothing; in all
-- other cases the root's without `expVersion`; and `upToDate` alone where the device already runs the
-- one that applies.
pub get-resolve_check_result :
    (j : String) (root_info : Fields) (identity : UpdateIdentity)
    → HasDistinctKeys (fields_of (get "expVersion" root_info))
    → get j (resolve_check_result root_info identity) ≡ decided_member j root_info identity
unfolding resolve_check_result
get-resolve_check_result j root_info identity d =
    get-resolve_by j root_info identity
      (rollout_of (get "expVersion" root_info) identity.package_version) d refl
