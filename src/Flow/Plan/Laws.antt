-- ===== src/Flow/Plan/Laws.antt =====
-- The download decision (src/updateFlowCore.ts): its guards and its attempts.
use mathlib.Core.List.{append_assoc, append-nil}
use react_native_pushy.Common.{ℕ, suc, String, Bool, true, false, not, ◌==◌}
use react_native_pushy.Common.{
  Option, none, some, List, [], ◌∷◌, ◌++◌, ◌≡◌, refl, arith, eq_iff, ◌≢◌,
}
use react_native_pushy.Common.{All, All-append, ltb}
use react_native_pushy.Json.{
  Value, undef, null, bool, num, str, arr, obj, Fields, get, HasDistinctKeys,
}
use react_native_pushy.Flow.Urls.{has_scheme, join_urls}
use react_native_pushy.Flow.Urls.Laws.{join_urls_lem}
use react_native_pushy.Flow.Verdict.{UpdateIdentity, runs_already, fields_of, resolve_check_result}
use react_native_pushy.Flow.Verdict.Laws.{offers_running-resolve_check_result}
use react_native_pushy.Flow.Plan.{
  UpdateInfo, text_of, read_update_info, DownloadStrategyType, diff, pdiff, full, DownloadAttempt,
  DownloadPlan, already_current, nothing, download, DownloadIdentity, is_version, has_urls,
  attempt_for, attempts_of, is_none_left, decide_download,
}

-- The position of a strategy in a plan: incremental first, the full package last.
abbrev pub rank : DownloadStrategyType → ℕ
rank diff = 0
rank pdiff = 1
rank full = 2

-- The attempts come in strictly rising rank, all of them at least `low`.
abbrev pub IsRanked : ℕ → List DownloadAttempt → Type 0
IsRanked low [] = Unit
IsRanked low (a ∷ rest) =
    (ltb (rank a.strategy) low ≡ false) × IsRanked (suc (rank a.strategy)) rest

abbrev pub is_empty_list : List String → Bool
is_empty_list [] = true
is_empty_list (u ∷ us) = false

-- An attempt that can be executed: it has a URL, and each names its scheme.
abbrev pub IsUsable : DownloadAttempt → Type 0
IsUsable a = (is_empty_list a.urls ≡ false) × All (λ u. has_scheme u ≡ true) a.urls

attempt_for-IsUsable :
    (strategy : DownloadStrategyType) (paths : List String) (file_name : String)
    (joined : Option (List String))
    → join_urls paths file_name ≡ joined
    → All IsUsable (attempt_for strategy joined)
attempt_for-IsUsable strategy paths file_name none h = tt
attempt_for-IsUsable strategy paths file_name (some []) h = tt
attempt_for-IsUsable strategy paths file_name (some (u ∷ us)) h =
    ((refl, (join_urls_lem paths file_name (u ∷ us) h).2), tt)

attempts_of-IsUsable : (info : UpdateInfo) (is_dev : Bool) → All IsUsable (attempts_of info is_dev)
unfolding attempts_of
attempts_of-IsUsable info true = attempt_for-IsUsable full info.paths info.full _ refl
attempts_of-IsUsable info false =
    All-append IsUsable _ _
      (All-append IsUsable _ _ (attempt_for-IsUsable diff info.paths info.diff _ refl)
        (attempt_for-IsUsable pdiff info.paths info.pdiff _ refl))
      (attempt_for-IsUsable full info.paths info.full _ refl)

IsRanked-mono :
    (low high : ℕ) (xs : List DownloadAttempt)
    → ltb high low ≡ false
    → IsRanked high xs
    → IsRanked low xs
IsRanked-mono low high [] h r = tt
IsRanked-mono low high (x ∷ xs) h (first, rest) = (ground arith, rest)

IsRanked-attempt_for :
    (low : ℕ) (strategy : DownloadStrategyType) (joined : Option (List String))
    (rest : List DownloadAttempt)
    → ltb (rank strategy) low ≡ false
    → IsRanked (suc (rank strategy)) rest
    → IsRanked low (attempt_for strategy joined ++ rest)
IsRanked-attempt_for low strategy none rest h r = IsRanked-mono low _ rest (ground arith) r
IsRanked-attempt_for low strategy (some []) rest h r = IsRanked-mono low _ rest (ground arith) r
IsRanked-attempt_for low strategy (some (u ∷ us)) rest h r = (h, r)

IsRanked-attempts :
    (d p f : Option (List String))
    → IsRanked 0 ((attempt_for diff d ++ attempt_for pdiff p) ++ attempt_for full f)
IsRanked-attempts d p f =
    let last : IsRanked 2 (attempt_for full f) =
      rw append-nil at (IsRanked-attempt_for 2 full f [] refl tt) in
    rw append_assoc
      (IsRanked-attempt_for 0 diff d _ refl (IsRanked-attempt_for 1 pdiff p _ refl last))

attempts_of-IsRanked : (info : UpdateInfo) (is_dev : Bool) → IsRanked 0 (attempts_of info is_dev)
unfolding attempts_of
attempts_of-IsRanked info true = IsRanked-attempts none none (join_urls info.paths info.full)
attempts_of-IsRanked info false = IsRanked-attempts _ _ _

module _ (info : UpdateInfo) (identity : DownloadIdentity) (is_dev : Bool) {plan : DownloadPlan}
    (decided : decide_download info identity is_dev ≡ download plan) where
  decided_attempts : plan.attempts ≡ attempts_of info is_dev
  unfolding decide_download
  decided_attempts = ground arith

  -- A download is only ever decided for an announced update with a hash that is neither the running
  -- version nor the version that was rolled back, and the plan is for that hash.
  pub decide_download-guards :
      (info.update ≡ true)
      × (info.hash ≢ "")
      × (plan.hash ≡ info.hash)
      × (is_version info.hash identity.current_version ≡ false)
      × (is_version info.hash identity.rolled_back_version ≡ false)
  unfolding decide_download
  decide_download-guards = ground (arith, eq_iff info.hash "")

  -- A plan tries the binary diff, then the package diff, then the full package, each at most once;
  -- every attempt has at least one URL, and each URL names its scheme.
  pub decide_download-attempts : IsRanked 0 plan.attempts × All IsUsable plan.attempts
  decide_download-attempts =
      rw decided_attempts (attempts_of-IsRanked info is_dev, attempts_of-IsUsable info is_dev)

is_none_left-attempt_for :
    (strategy : DownloadStrategyType) (joined : Option (List String))
    → is_none_left (attempt_for strategy joined) ≡ not (has_urls joined)
is_none_left-attempt_for strategy none = refl
is_none_left-attempt_for strategy (some []) = refl
is_none_left-attempt_for strategy (some (u ∷ us)) = refl

-- A plan has nothing to fetch exactly where it is the development no-op.
pub decide_download-dev_noop :
    (info : UpdateInfo) (identity : DownloadIdentity) (is_dev : Bool) {plan : DownloadPlan}
    → decide_download info identity is_dev ≡ download plan
    → plan.dev_noop ≡ is_none_left plan.attempts
unfolding decide_download attempts_of
decide_download-dev_noop info identity true decided =
    ground (arith, is_none_left-attempt_for full (join_urls info.paths info.full))
decide_download-dev_noop info identity false decided = ground arith

is_version-text_of :
    (hash : Value) (version : Option String)
    → (text_of hash == "") ≡ false
    → is_version (text_of hash) version ≡ runs_already hash version
is_version-text_of (str s) none h = refl
is_version-text_of (str s) (some v) h = ground arith
is_version-text_of undef v h = cc
is_version-text_of null v h = cc
is_version-text_of (bool b) v h = cc
is_version-text_of (num n) v h = cc
is_version-text_of (arr xs) v h = cc
is_version-text_of (obj fs) v h = cc

-- A check result that went through the per-device decision is never turned down later because its
-- version already runs: that case was answered as up to date before.
decide_download-resolve_check_result :
    (root_info : Fields) (identity : UpdateIdentity) (rolled_back_version : Option String)
    (is_dev : Bool)
    → HasDistinctKeys (fields_of (get "expVersion" root_info))
    → decide_download
        (read_update_info (resolve_check_result root_info identity))
        (record {
          current_version = identity.current_version;
          rolled_back_version = rolled_back_version;
        })
        is_dev
      ≢ nothing already_current
unfolding decide_download read_update_info
decide_download-resolve_check_result root_info identity rolled_back_version is_dev d decided =
    ground (
      arith,
      offers_running-resolve_check_result root_info identity d,
      is_version-text_of (get "hash" (resolve_check_result root_info identity))
          identity.current_version,
    )
