-- ===== src/Harmony/Context/Commit.antt =====
-- commitSyncResult and switchVersion (harmony/pushy/src/main/ets/UpdateContext.ts): what the round of
-- the native check persists, behind the verification that it awaits.
pub mod Laws
pub mod Stale
use react_native_pushy.Common.{
  ℕ, String, Bool, true, false, not, ◌&&◌, ◌||◌, ◌==◌, beq, if◌then◌else◌, List, [], ◌∷◌,
}
use react_native_pushy.Common.Text.{text_append}
use react_native_pushy.Common.Int.{ℤ}
use react_native_pushy.Json.{str, Fields, put}
use react_native_pushy.Harmony.Store.{key_hash_info, key_check_cache}
use react_native_pushy.Harmony.Context.{
  Context, flush, flush_cache, apply_switch, reset_to_packaged_bundle, set_native_config,
  mark_success, clear_rollback_mark,
}

-- `false`, an error of the verification, an error of the flush, or `true`.
pub data Committed : Type 0 where
  discarded refused unflushed committed : Committed

-- What the engine hands to the commit.
pub record SyncResult : Type 0 where
  pub expected_generation : ℕ
  pub hash : String
  pub hash_info : String
  pub activate : Bool
  pub response_cache : String

abbrev pub should_switch : SyncResult → Bool
should_switch r = r.activate && not (r.hash == "")

abbrev pub put_hash_info : SyncResult → Fields → Fields
put_hash_info r store =
    if not (r.hash == "") && not (r.hash_info == "")
    then put (text_append key_hash_info r.hash) (str r.hash_info) store
    else store

-- Operations that other callers run meanwhile.
pub data Operation : Type 0 where
  resets : String → String → Bool → Bool → Bool → Operation
  configures : String → String → Bool → Bool → Operation
  confirms clears_rollback : Bool → Operation
  activates : String → Operation

module _ (show : ℤ → String) where
  -- The writes in memory, before the one flush of the batch.
  unfoldable pub write_result : SyncResult → Context → Context
  unfolding apply_switch
  write_result r c =
      let noted = record c { store = put_hash_info r c.store } in
      if should_switch r then apply_switch show r.hash noted else noted

  abbrev pub put_response : SyncResult → Bool → Context → Context
  put_response r cache_flushed c =
      if r.response_cache == ""
      then c
      else flush_cache cache_flushed
          (record c { cache = put key_check_cache (str r.response_cache) c.cache })

  abbrev pub flush_result : SyncResult → Bool → Bool → Context → Context × Committed
  flush_result r true cache_flushed c = (put_response r cache_flushed (flush true c), committed)
  flush_result r false cache_flushed c = (c, unflushed)

  -- `later` is the context when the verification has settled.
  unfoldable pub commit_sync_result :
      SyncResult → Bool → Bool → Bool → Context → Context → Context × Committed
  commit_sync_result r verified flushed cache_flushed later c =
      if not (beq c.reset_generation r.expected_generation)
      then (c, discarded)
      else if not (should_switch r)
      then flush_result r flushed cache_flushed (write_result r c)
      else if not verified
      then (later, refused)
      else if not (beq later.reset_generation r.expected_generation)
      then (later, discarded)
      else flush_result r flushed cache_flushed (write_result r later)

  -- `switchVersion`, with the generation that it sampled.
  unfoldable pub switch_version : String → ℕ → Bool → Bool → Context → Context × Committed
  unfolding apply_switch
  switch_version hash generation verified flushed later =
      if not verified
      then (later, refused)
      else if not (beq later.reset_generation generation)
      then (later, discarded)
      else (flush flushed (apply_switch show hash later), if flushed then committed else unflushed)

  unfoldable pub operate : (String → String → Bool) → Operation → Context → Context
  unfolding reset_to_packaged_bundle set_native_config mark_success clear_rollback_mark apply_switch
  operate equivalent (resets package_version build_time readable f g) c =
      reset_to_packaged_bundle show package_version build_time readable f g c
  operate equivalent (configures fresh config f g) c =
      set_native_config show equivalent fresh config f g c
  operate equivalent (confirms f) c = mark_success show false f c
  operate equivalent (clears_rollback f) c = clear_rollback_mark show f c
  operate equivalent (activates hash) c = apply_switch show hash c

  unfoldable pub operate_all : (String → String → Bool) → List Operation → Context → Context
  operate_all equivalent [] c = c
  operate_all equivalent (o ∷ os) c = operate_all equivalent os (operate equivalent o c)
