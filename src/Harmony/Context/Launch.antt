-- ===== src/Harmony/Context/Launch.antt =====
-- getBundleUrl (harmony/pushy/src/main/ets/UpdateContext.ts): which bundle a process starts with.
pub mod Laws
pub mod Decisions
pub mod Crash
use react_native_pushy.Common.{
  ℕ, zero, suc, String, Bool, true, false, not, ◌&&◌, ◌||◌, ◌==◌, if◌then◌else◌, List, [], ◌∷◌,
  contains,
}
use react_native_pushy.Common.Int.{ℤ}
use react_native_pushy.Harmony.StateCore
use react_native_pushy.Harmony.StateCore.{LaunchDecision, resolve_launch_state}
use react_native_pushy.Harmony.Store.{read_state, write_marker, write_state, key_first_load_marker}
use react_native_pushy.Harmony.Context.{Context, flush, run_state_operation}

-- The packaged bundle, or the bundle of a version; the loop may also be cut short by its fuel.
pub data Bundle : Type 0 where
  cut_short packaged : Bundle
  bundle_of : String → Bundle

-- `rollBack`.
unfoldable pub roll_back : (ℤ → String) → Bool → Context → Context
unfolding run_state_operation
roll_back show flushed c = flush flushed (run_state_operation show StateCore.rollback c)

-- The state of the decision, and the marker that getConstants reports, are written where the launch
-- rolled back or consumed `firstTime`.
unfoldable pub persist_launch : Bool → LaunchDecision → Context → Context
unfolding write_marker
persist_launch flushed d c =
    let written = write_state d.state c.store in
    if d.did_rollback || d.consumed_first_time
    then flush flushed (record c {
      store =
          if d.consumed_first_time
          then write_marker key_first_load_marker true written
          else written;
    })
    else c

module _ (show : ℤ → String) (access : String → Bool) (flushed : Bool) where
  -- The loop over the versions that rolling back leads to. A bundle file that is missing or cannot be
  -- accessed rolls back.
  unfoldable pub open_version : ℕ → List String → String → Context → Context × Bundle
  unfolding roll_back
  open_version zero visited version c = (c, cut_short)
  open_version (suc fuel) visited version c =
      let back = roll_back show flushed c in
      let next = (read_state show back.store).current_version in
      let later = open_version fuel (version ∷ visited) next back in
      if (version == "") || contains version visited
      then (c, packaged)
      else if access version
      then (record c { launch_version = version }, bundle_of version)
      else later

  -- Rolling back twice leaves no version, so three rounds are enough.
  unfoldable pub start_from : LaunchDecision → Context → Context × Bundle
  start_from d c =
      let kept = persist_launch flushed d c in
      open_version 3 [] d.load_version
        (record kept { ignore_rollback = d.consumed_first_time || kept.ignore_rollback })

  unfoldable pub get_bundle_url : Context → Context × Bundle
  unfolding start_from
  get_bundle_url c =
      start_from (resolve_launch_state c.ignore_rollback true (read_state show c.store)) c
