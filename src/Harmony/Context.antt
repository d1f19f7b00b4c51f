-- ===== src/Harmony/Context.antt =====
-- UpdateContext (harmony/pushy/src/main/ets/UpdateContext.ts): the stores, the statics of the process
-- and the operations on them. An operation that flushes is told whether the flush succeeds; one that
-- fails leaves the disk as it was.
pub mod Launch
pub mod Laws
pub mod Commit
pub mod Cleared
pub mod Exclusive
use Prim.Native.String
use Prim.Native.Char.{code}
use react_native_pushy.Common.{
  ℕ, ◌+◌, String, Bool, true, false, not, ◌&&◌, ◌||◌, ◌==◌, beq, if◌then◌else◌, Option, none, some,
}
use react_native_pushy.Common.Text.{text_append}
use react_native_pushy.Common.Int.{ℤ}
use react_native_pushy.Json.{Value, str, Fields, no_fields, entry, get, put, del}
use react_native_pushy.Harmony.StateCore
use react_native_pushy.Harmony.StateCore.{State}
use react_native_pushy.Harmony.Store.{
  read, read_marker, read_state, write_marker, write_state, key_hash_info, key_first_load_marker,
  key_check_cache, key_uuid, key_native_config,
}

pub record Context : Type 0 where
  pub store : Fields
  pub disk : Fields
  pub cache : Fields
  pub cache_disk : Fields
  pub reset_generation : ℕ
  pub config_generation : ℕ
  pub ignore_rollback : Bool
  pub launch_version : String
  pub js_round : String

-- A new process on the same device: memory is what the disk holds.
unfoldable pub restart : Context → Context
restart c = record {
  store = c.disk;
  disk = c.disk;
  cache = c.cache_disk;
  cache_disk = c.cache_disk;
  reset_generation = 0;
  config_generation = 0;
  ignore_rollback = false;
  launch_version = "";
  js_round = "";
}

abbrev pub flush : Bool → Context → Context
flush true c = record c { disk = c.store }
flush false c = c

abbrev pub flush_cache : Bool → Context → Context
flush_cache true c = record c { cache_disk = c.cache }
flush_cache false c = c

-- `key.startsWith(prefix)`.
unfoldable pub has_prefix : String → String → Bool
has_prefix String.[] s = true
has_prefix (String.◌∷◌ p ps) String.[] = false
has_prefix (String.◌∷◌ p ps) (String.◌∷◌ c s) = beq (code p) (code c) && has_prefix ps s

unfoldable pub remove_prefixed : String → Fields → Fields
unfolding has_prefix
remove_prefixed prefix no_fields = no_fields
remove_prefixed prefix (entry k v fs) =
    let rest = remove_prefixed prefix fs in if has_prefix prefix k then rest else entry k v rest

-- `removeKeys` with RESET_CLEARED, which is UPGRADE_CLEARED too. Where the store cannot be read as a
-- whole, which is caught, the prefixed keys stay.
unfoldable pub remove_keys : Bool → Fields → Fields
unfolding del remove_prefixed
remove_keys readable store =
    let rest = del key_first_load_marker store in
    if readable then remove_prefixed key_hash_info rest else rest

-- `clearCheckCache`.
unfoldable pub clear_check_cache : Bool → Context → Context
unfolding del
clear_check_cache flushed c = flush_cache flushed (record c { cache = del key_check_cache c.cache })

module _ (show : ℤ → String) where
  -- `runStateOperation` without options.
  unfoldable pub run_state_operation : (State → State) → Context → Context
  run_state_operation f c = record c { store = write_state (f (read_state show c.store)) c.store }

  unfoldable pub sync_state_with_binary_version :
      String → String → Bool → Bool → Bool → Context → Context
  unfolding clear_check_cache remove_keys
  sync_state_with_binary_version package_version build_time readable flushed cache_flushed c =
      let s = read_state show c.store in
      if (package_version == "") || (build_time == "")
      then c
      else if StateCore.is_changed package_version build_time s
      then clear_check_cache cache_flushed (
          flush flushed (record c {
            ignore_rollback = false;
            store =
                write_state (StateCore.sync_binary_version package_version build_time s)
                  (remove_keys readable c.store);
          }))
      else c

  abbrev pub drop_hash_info : String → Fields → Fields
  drop_hash_info version store =
      if version == "" then store else del (text_append key_hash_info version) store

  -- `markSuccess`; a debug host does nothing.
  unfoldable pub mark_success : Bool → Bool → Context → Context
  unfolding del
  mark_success debug flushed c =
      let s = read_state show c.store in
      if debug
      then c
      else flush flushed (record c {
        store =
            drop_hash_info (StateCore.stale_version s)
              (write_state (StateCore.mark_success s) c.store);
      })

  unfoldable pub clear_rollback_mark : Bool → Context → Context
  unfolding run_state_operation
  clear_rollback_mark flushed c =
      flush flushed (run_state_operation StateCore.clear_rollback_mark c)

  abbrev pub reset_state : String → String → State
  reset_state package_version build_time = record {
    package_version = package_version;
    build_time = build_time;
    current_version = "";
    last_version = "";
    first_time = false;
    first_time_ok = true;
    rolled_back_version = "";
  }

  -- `resetToPackagedBundle`, up to the queued deletion of the downloaded versions.
  unfoldable pub reset_to_packaged_bundle : String → String → Bool → Bool → Bool → Context → Context
  unfolding clear_check_cache remove_keys
  reset_to_packaged_bundle package_version build_time readable flushed cache_flushed c =
      record (clear_check_cache cache_flushed (
        flush flushed (record c {
          reset_generation = c.reset_generation + 1;
          store =
              write_state (reset_state package_version build_time) (remove_keys readable c.store);
        }))) { ignore_rollback = false }

  abbrev pub with_uuid : String → Fields → Fields
  with_uuid fresh store =
      if read show key_uuid store == "" then put key_uuid (str fresh) store else store

  -- `setNativeConfig`, over the core's equivalence of configurations and a fresh uuid.
  unfoldable pub set_native_config :
      (String → String → Bool) → String → String → Bool → Bool → Context → Context
  unfolding clear_check_cache put
  set_native_config equivalent fresh config flushed cache_flushed c =
      let store = with_uuid fresh c.store in
      let current = read show key_native_config store in
      if (current == "") || (not (current == config) && not (equivalent current config))
      then clear_check_cache cache_flushed (
          flush flushed (record c {
            reset_generation = c.reset_generation + 1;
            config_generation = c.config_generation + 1;
            store = put key_native_config (str config) store;
            js_round = "";
          }))
      else flush flushed (record c { store = store })

  unfoldable pub consume_first_load_marker : Bool → Context → Context × Bool
  unfolding write_marker
  consume_first_load_marker flushed c =
      let marked = read_marker show key_first_load_marker c.store in
      (
        if marked
            then flush flushed
                (record c { store = write_marker key_first_load_marker false c.store })
            else c,
        marked,
      )

  -- `applySwitch`.
  unfoldable pub apply_switch : String → Context → Context
  unfolding run_state_operation
  apply_switch hash c = record (run_state_operation (StateCore.switch_version hash) c) {
    ignore_rollback = false;
  }

-- `setKv` and `removeKv`.
unfoldable pub set_kv : String → String → Bool → Context → Context
unfolding put
set_kv key value flushed c = flush flushed (record c { store = put key (str value) c.store })

unfoldable pub remove_kv : String → Bool → Context → Context
unfolding del
remove_kv key flushed c = flush flushed (record c { store = del key c.store })
