-- ===== src/Harmony/StateCore.antt =====
-- The state machine of installed versions that the platforms share (cpp/patch_core/state_core.cpp,
-- called through NativePatchCore.ts).
use react_native_pushy.Common.{String, Bool, true, false, not, ◌&&◌, ◌||◌, ◌==◌, if◌then◌else◌}

-- An empty text is no version.
pub record State : Type 0 where
  pub package_version : String
  pub build_time : String
  pub current_version : String
  pub last_version : String
  pub first_time : Bool
  pub first_time_ok : Bool
  pub rolled_back_version : String

unfoldable pub is_changed : String → String → State → Bool
is_changed package_version build_time s =
    not (s.package_version == package_version) || not (s.build_time == build_time)

-- The state of `SyncBinaryVersion` where the binary has changed.
unfoldable pub sync_binary_version : String → String → State → State
unfolding is_changed
sync_binary_version package_version build_time s =
    if is_changed package_version build_time s
    then record {
      package_version = package_version;
      build_time = build_time;
      current_version = "";
      last_version = "";
      first_time = false;
      first_time_ok = true;
      rolled_back_version = "";
    }
    else s

unfoldable pub switch_version : String → State → State
switch_version hash s = record s {
  current_version = hash;
  last_version =
      if not (s.current_version == "") && not (s.current_version == hash)
      then s.current_version
      else s.last_version;
  first_time = true;
  first_time_ok = false;
  rolled_back_version = "";
}

abbrev pub has_stale : State → Bool
has_stale s = not (s.last_version == "") && not (s.last_version == s.current_version)

unfoldable pub mark_success : State → State
mark_success s = record s {
  first_time = false;
  first_time_ok = true;
  last_version = if has_stale s then "" else s.last_version;
}

-- `stale_version_to_delete`.
unfoldable pub stale_version : State → String
stale_version s = if has_stale s then s.last_version else ""

unfoldable pub clear_first_time : State → State
clear_first_time s = record s { first_time = false }

unfoldable pub clear_rollback_mark : State → State
clear_rollback_mark s = record s { rolled_back_version = "" }

unfoldable pub rollback : State → State
rollback s = record s {
  current_version = if s.last_version == "" then "" else s.last_version;
  last_version = if s.last_version == "" then s.last_version else "";
  first_time = false;
  first_time_ok = true;
  rolled_back_version = s.current_version;
}

unfoldable pub forget_purged_versions : State → State
forget_purged_versions s = record s {
  current_version = "";
  last_version = "";
  first_time = false;
  first_time_ok = true;
}

unfoldable pub should_rollback_for_broken_first_load : State → Bool
should_rollback_for_broken_first_load s = not s.first_time && not s.first_time_ok

pub record LaunchDecision : Type 0 where
  pub state : State
  pub load_version : String
  pub did_rollback : Bool
  pub consumed_first_time : Bool

unfoldable pub resolve_launch_state : Bool → Bool → State → LaunchDecision
unfolding rollback should_rollback_for_broken_first_load
resolve_launch_state ignore_rollback consume_first_time s =
    if s.current_version == ""
    then record {
      state = s;
      load_version = s.current_version;
      did_rollback = false;
      consumed_first_time = false;
    }
    else if not ignore_rollback && should_rollback_for_broken_first_load s
    then record {
      state = rollback s;
      load_version = (rollback s).current_version;
      did_rollback = true;
      consumed_first_time = false;
    }
    else if not ignore_rollback && consume_first_time && s.first_time
    then record {
      state = record s { first_time = false };
      load_version = s.current_version;
      did_rollback = false;
      consumed_first_time = true;
    }
    else record {
      state = s;
      load_version = s.current_version;
      did_rollback = false;
      consumed_first_time = false;
    }
