-- ===== src/Harmony/Context/Exclusive.antt =====
-- Activation against the deletion of old versions (enqueueCleanupTask, verifyActivationExclusive,
-- switchVersion, cleanUp and resetToPackagedBundle of harmony/pushy/src/main/ets/UpdateContext.ts), as
-- steps. The tasks of the serial chain start and end one at a time. A flush writes what memory holds when it
-- ends; one that fails does not happen.
pub mod Verified
pub mod Steps
pub mod Laws
use react_native_pushy.Common.{
  ℕ, zero, suc, ◌+◌, ◌-◌, String, Bool, true, false, not, ◌&&◌, ◌||◌, ◌==◌, beq, if◌then◌else◌,
  Option, none, some, List, [], ◌∷◌, contains,
}
use react_native_pushy.Common.Pool.{nth_of, without_nth}
use react_native_pushy.Harmony.StateCore
use react_native_pushy.Harmony.StateCore.{State}

-- A switch waits for the deletion in flight, or for its verification: the attempts that are left, the
-- deletions begun before it, and what the native check has read of the disk so far.
pub data Waiting : Type 0 where
  queued : String → ℕ → ℕ → Waiting
  verifying : String → ℕ → ℕ → (starts : ℕ) → (verified : Option Bool) → Waiting

-- The state in memory and on disk, the generation of resets, how many resets await their flush and how many
-- have their deletion queued, the installed versions, the names that the deletion in flight keeps, and how
-- many deletions have begun.
pub record World : Type 0 where
  pub state : State
  pub disk : State
  pub launch_version : String
  pub reset_generation : ℕ
  pub resetting : ℕ
  pub owed : ℕ
  pub installed : String → Bool
  pub cleanup : Option (List String)
  pub starts : ℕ
  pub waiting : List Waiting
  pub failures : ℕ

abbrev pub max_verify_attempts : ℕ
max_verify_attempts = 3

abbrev pub is_none : Option (List String) → Bool
is_none none = true
is_none (some keep) = false

abbrev pub fail : World → World
fail w = record w { failures = w.failures + 1 }

-- The top of the loop, for a switch begun under this generation.
abbrev pub attempt : String → ℕ → ℕ → World → World
attempt hash generation zero w = fail w
attempt hash generation (suc left) w =
    if is_none w.cleanup
    then record w { waiting = verifying hash generation left w.starts none ∷ w.waiting }
    else record w { waiting = queued hash generation (suc left) ∷ w.waiting }

-- `switchVersion`.
unfoldable pub switch_version_call : String → World → World
switch_version_call hash w = attempt hash w.reset_generation max_verify_attempts w

-- Behind the verification. A reset that came between fails the switch.
abbrev pub apply_switch : String → ℕ → World → World
apply_switch hash generation w =
    if beq w.reset_generation generation
    then record w { state = StateCore.switch_version hash w.state }
    else fail w

abbrev pub after_verification : String → ℕ → ℕ → ℕ → World → World
after_verification hash generation left starts w =
    if is_none w.cleanup && beq w.starts starts
    then apply_switch hash generation w
    else attempt hash generation left w

-- The promise that a waiting switch awaits has settled. A version that is not installed does not pass.
unfoldable pub resume : Option Waiting → World → World → World
resume none before w = before
resume (some (queued hash generation left)) before w =
    if is_none w.cleanup then attempt hash generation left w else before
resume (some (verifying hash generation left starts none)) before w = before
resume (some (verifying hash generation left starts (some false))) before w = fail w
resume (some (verifying hash generation left starts (some true))) before w =
    after_verification hash generation left starts w

-- The native check of a waiting switch reads the disk.
unfoldable pub read_disk : (String → Bool) → ℕ → List Waiting → List Waiting
read_disk installed k [] = []
read_disk installed zero (verifying hash generation left starts none ∷ xs) =
    verifying hash generation left starts (some (installed hash)) ∷ xs
read_disk installed zero (x ∷ xs) = x ∷ xs
read_disk installed (suc k) (x ∷ xs) = x ∷ read_disk installed k xs

-- The names that `cleanUp` keeps, taken when the task starts.
abbrev pub keep_names : World → List String
keep_names w = w.state.current_version ∷ w.state.last_version ∷ w.launch_version ∷ []

-- The names that the deletion of `resetToPackagedBundle` keeps.
abbrev pub reset_keep_names : World → List String
reset_keep_names w = w.launch_version ∷ []

abbrev pub begin_cleanup : List String → World → World
begin_cleanup keep w =
    if is_none w.cleanup then record w { cleanup = some keep; starts = w.starts + 1 } else w

abbrev pub is_deletable : Option (List String) → String → Bool
is_deletable none v = false
is_deletable (some keep) v = not (contains v keep)

abbrev pub reset_state : State → State
reset_state s = record s {
  current_version = "";
  last_version = "";
  first_time = false;
  first_time_ok = true;
  rolled_back_version = "";
}

-- The flush of a reset has ended. Only one that succeeds queues the deletion.
abbrev pub end_reset : Bool → World → World
end_reset flushed w =
    if beq w.resetting 0
    then w
    else if flushed
    then record w { resetting = w.resetting - 1; disk = w.state; owed = w.owed + 1 }
    else record w { resetting = w.resetting - 1 }

abbrev pub begin_reset_cleanup : World → World
begin_reset_cleanup w =
    if not (is_none w.cleanup) || beq w.owed 0
    then w
    else begin_cleanup (reset_keep_names w) (record w { owed = w.owed - 1 })

pub data Event : Type 0 where
  switches : String → Event
  resumes reads : ℕ → Event
  cleanup_starts reset_cleanup_starts cleanup_ends resets flushes : Event
  reset_flushes : Bool → Event
  deletes installs : String → Event

unfoldable pub step : Event → World → World
unfolding switch_version_call resume read_disk nth_of without_nth StateCore.switch_version
step (switches hash) w = switch_version_call hash w
step (resumes k) w = resume (nth_of k w.waiting) w (record w { waiting = without_nth k w.waiting })
step (reads k) w = record w { waiting = read_disk w.installed k w.waiting }
step cleanup_starts w = begin_cleanup (keep_names w) w
step reset_cleanup_starts w = begin_reset_cleanup w
step cleanup_ends w = record w { cleanup = none }
step resets w = record w {
  state = reset_state w.state;
  reset_generation = w.reset_generation + 1;
  resetting = w.resetting + 1;
}
step (reset_flushes flushed) w = end_reset flushed w
step flushes w = record w { disk = w.state }
step (deletes v) w =
    if is_deletable w.cleanup v
    then record w { installed = λ u. not (v == u) && w.installed u }
    else w
step (installs v) w = record w { installed = λ u. (v == u) || w.installed u }

unfoldable pub run : List Event → World → World
unfolding step
run [] w = w
run (e ∷ es) w = run es (step e w)
