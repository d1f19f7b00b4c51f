-- ===== src/Harmony/Context/Commit/Laws.antt =====
-- What a commit of the native round (harmony/pushy/src/main/ets/UpdateContext.ts) leaves on disk.
use mathlib.Core.Bool.{false≢true}
use react_native_pushy.Common.{
  String, Bool, true, false, not, ◌&&◌, ◌==◌, beq, if◌then◌else◌, ◌≡◌, refl, sym, subst, ap, ◌∙◌,
  inl, inr, Bool-cases, eq_refl,
}
use react_native_pushy.Common.Text.{text_append}
use react_native_pushy.Common.Int.{ℤ}
use react_native_pushy.Json.{str, Fields, get, put}
use react_native_pushy.Json.Laws.{get-put}
use react_native_pushy.Harmony.StateCore
use react_native_pushy.Harmony.Store.{read_state, key_hash_info, key_check_cache}
use react_native_pushy.Harmony.Store.Laws.{read_state-write_state}
use react_native_pushy.Harmony.Context.{
  Context, flush, flush_cache, run_state_operation, apply_switch,
}
use react_native_pushy.Harmony.Context.Laws.{no_state_key}
use react_native_pushy.Harmony.Context.Commit.{
  Committed, discarded, refused, unflushed, committed, SyncResult, should_switch, put_hash_info,
  write_result, flush_result, commit_sync_result,
}

module _ (show : ℤ → String) where
  -- The disk holds the whole result.
  pub record IsSaved (r : SyncResult) (disk : Fields) : Type 0 where
    pub info :
        (not (r.hash == "") && not (r.hash_info == "")) ≡ true
        → get (text_append key_hash_info r.hash) disk ≡ str r.hash_info
    pub switched : should_switch r ≡ true → (read_state show disk).current_version ≡ r.hash

  get-put_hash_info :
      (r : SyncResult) (store : Fields)
      → (not (r.hash == "") && not (r.hash_info == "")) ≡ true
      → get (text_append key_hash_info r.hash) (put_hash_info r store) ≡ str r.hash_info
  get-put_hash_info r store e =
      let key = text_append key_hash_info r.hash in
      simp e (get-put key key (str r.hash_info) store ∙ simp (eq_refl key))

  IsSaved-write_result : (r : SyncResult) (c : Context) → IsSaved r (write_result show r c).store
  unfolding write_result apply_switch run_state_operation StateCore.switch_version
  IsSaved-write_result r c = elim (Bool-cases (should_switch r)) [
    | inr e ↦ simp e (record {
      info = get-put_hash_info r c.store;
      switched = λ h. absurd (false≢true (sym e ∙ h));
    })
    | inl e ↦
        let noted = put_hash_info r c.store in
        let state = StateCore.switch_version r.hash (read_state show noted) in
        let saved = read_state-write_state show state noted in
        simp e (record {
          info = λ h.
              saved.1 (text_append key_hash_info r.hash) (no_state_key r.hash)
              ∙ get-put_hash_info r c.store h;
          switched = λ _. ap (λ (t : StateCore.State). t.current_version) saved.0;
        })
  ]

  -- What the caller is told, and what the disk then holds.
  pub Reports : SyncResult → Fields → Context → Committed → Type 0
  Reports r old c committed = (c.disk ≡ c.store) × IsSaved r c.disk
  Reports r old c discarded = c.disk ≡ old
  Reports r old c refused = c.disk ≡ old
  Reports r old c unflushed = c.disk ≡ old

  Reports-flush_result :
      (r : SyncResult) (flushed cache_flushed : Bool) (c : Context)
      → IsSaved r c.store
      → Reports r c.disk
          (flush_result show r flushed cache_flushed c).0
          (flush_result show r flushed cache_flushed c).1
  unfolding Reports
  Reports-flush_result r false cache_flushed c h = refl
  Reports-flush_result r true cache_flushed c h = elim (Bool-cases (r.response_cache == "")) [
    | inl e ↦ simp e (refl, h)
    | inr e ↦ simp e (match_flush cache_flushed)
  ]
    where
      cached : Context
      cached = record (flush true c) { cache = put key_check_cache (str r.response_cache) c.cache }

      match_flush : (f : Bool) → Reports r c.disk (flush_cache f cached) committed
      match_flush true = (refl, h)
      match_flush false = (refl, h)

  write_result-disk : (r : SyncResult) (c : Context) → (write_result show r c).disk ≡ c.disk
  unfolding write_result apply_switch run_state_operation
  write_result-disk r c = elim (Bool-cases (should_switch r)) [
    | inl e ↦ simp e refl
    | inr e ↦ simp e refl
  ]

  Reports-write_result :
      (r : SyncResult) (flushed cache_flushed : Bool) (c : Context)
      → Reports r c.disk
          (flush_result show r flushed cache_flushed (write_result show r c)).0
          (flush_result show r flushed cache_flushed (write_result show r c)).1
  Reports-write_result r flushed cache_flushed c =
      let out = flush_result show r flushed cache_flushed (write_result show r c) in
      subst (λ (old : Fields). Reports r old out.0 out.1) (write_result-disk r c)
        (Reports-flush_result r flushed cache_flushed (write_result show r c)
          (IsSaved-write_result r c))

  -- A commit of the native round that reports success leaves the disk equal to memory, with the hash info
  -- saved and, where it switches, the hash as the current version. Any other outcome (discarded, refused by the
  -- verification, a failed flush) leaves the disk of the moment as it was.
  pub commit_sync_result-Reports :
      (r : SyncResult) (verified flushed cache_flushed : Bool) (later c : Context)
      → let out = commit_sync_result show r verified flushed cache_flushed later c in
        Reports r
          (if should_switch r && beq c.reset_generation r.expected_generation
            then later.disk
            else c.disk)
          out.0
          out.1
  unfolding commit_sync_result Reports
  commit_sync_result-Reports r verified flushed cache_flushed later c =
      elim (Bool-cases (beq c.reset_generation r.expected_generation)) [
        | inr e ↦ elim (Bool-cases (should_switch r)) [
          | inl f ↦ simp (e, f) refl
          | inr f ↦ simp (e, f) refl
        ]
        | inl e ↦ elim (Bool-cases (should_switch r)) [
          | inr f ↦ simp (e, f) (Reports-write_result r flushed cache_flushed c)
          | inl f ↦ elim (Bool-cases verified) [
            | inr g ↦ simp (e, f, g) refl
            | inl g ↦ elim (Bool-cases (beq later.reset_generation r.expected_generation)) [
              | inr h ↦ simp (e, f, g, h) refl
              | inl h ↦ simp (e, f, g, h) (Reports-write_result r flushed cache_flushed later)
            ]
          ]
        ]
      ]
