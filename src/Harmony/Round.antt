-- ===== src/Harmony/Round.antt =====
-- The round of the native check (harmony/pushy/src/main/ets/SyncCoordinator.ts, with
-- BundlePreparationResult.ts) as steps: who starts it, and what the hosts that wait for it are told.
-- What the round does between its start and its finish is not modelled.
pub mod Laws
pub mod Behind
pub mod Cancelled
use react_native_pushy.Common.{
  ℕ, ◌+◌, String, Bool, true, false, not, ◌&&◌, ◌||◌, ◌==◌, beq, if◌then◌else◌, Option, none, some,
  List, [], ◌∷◌,
}
use react_native_pushy.Common.Pool.{nth_of, without_nth}

pub record Result : Type 0 where
  pub status : String
  pub reason : String
  pub hash : String
  pub activated : Bool

-- `bundlePreparationResult` with its two defaults.
abbrev pub result_of : String → String → Result
result_of status reason = record { status = status; reason = reason; hash = ""; activated = false }

-- The engine's `finish` command.
pub record Finish : Type 0 where
  pub status : Option String
  pub reason : Option String
  pub hash : Option String
  pub activated : Bool

abbrev pub or_text : Option String → String → String
or_text none fallback = fallback
or_text (some s) fallback = s

unfoldable pub finish_round : Finish → Result
finish_round f =
    let status = or_text f.status "failed" in
    let reason = or_text f.reason "" in
    if status == "downloaded"
    then record {
      status = status;
      reason = reason;
      hash = or_text f.hash "";
      activated = f.activated;
    }
    else result_of status reason

-- The promise of `hostRound`: not made, made but its operation not yet called, at work, or settled.
pub data Task : Type 0 where
  absent deferred running : Task
  done : Result → Task

-- A host that waits in prepareBundleNative, and whether it gave a timeout.
pub record Host : Type 0 where
  pub id : ℕ
  pub config : String
  pub bounded : Bool

pub data Answer : Type 0 where
  rejected : Result → Answer
  timed_out : Answer
  cancelled : String → Answer
  prepared : Result → Answer

-- What the code reads of the update context, the variables of the module (a generation is none where it is
-- -1), how often runOnce was called, and the answers, the newest first.
pub record World : Type 0 where
  pub config : String
  pub reset_generation : ℕ
  pub config_generation : ℕ
  pub breadcrumb : Bool
  pub scheduled : Bool
  pub rollback : String
  pub timer : Option ℕ
  pub js_completed : String
  pub task : Task
  pub round_generation : Option ℕ
  pub round_config_generation : Option ℕ
  pub round_config : String
  pub marked : Bool
  pub started : ℕ
  pub next_host : ℕ
  pub waiting : List Host
  pub answers : List (ℕ × Answer)

unfoldable pub init : String → Bool → World
init config breadcrumb = record {
  config = config;
  reset_generation = 0;
  config_generation = 0;
  breadcrumb = breadcrumb;
  scheduled = false;
  rollback = "";
  timer = none;
  js_completed = "";
  task = absent;
  round_generation = none;
  round_config_generation = none;
  round_config = "";
  marked = false;
  started = 0;
  next_host = 0;
  waiting = [];
  answers = [];
}

abbrev pub start_delay_ms : ℕ
start_delay_ms = 5000

unfoldable pub schedule_native_sync : String → World → World
schedule_native_sync rollback w = if w.scheduled then w else record w {
  scheduled = true;
  rollback = rollback;
  timer = some (if w.breadcrumb then 0 else start_delay_ms);
}

-- `BundlePreparationRound.run`.
abbrev pub run_gate : Task → Task
run_gate absent = deferred
run_gate task = task

abbrev pub answer : ℕ → Answer → World → World
answer id a w = record w { answers = (id, a) ∷ w.answers }

abbrev pub same_generation : Option ℕ → ℕ → Bool
same_generation none g = false
same_generation (some k) g = beq k g

-- A round starts by sampling the generations and the configuration.
abbrev pub begin_round : Task → World → World
begin_round deferred w = record w {
  task = running;
  round_generation = some w.reset_generation;
  round_config_generation = some w.config_generation;
  round_config = w.config;
  started = w.started + 1;
}
begin_round _ w = w

-- `markIncomplete`.
abbrev pub mark_incomplete : Task → World → World
mark_incomplete running w = record w { breadcrumb = true; marked = true }
mark_incomplete _ w = w

-- What the round comes to: its finish, or an error.
abbrev pub outcome_of : Option Finish → Result
outcome_of none = result_of "failed" "internal_error"
outcome_of (some f) = finish_round f

abbrev pub end_round : Task → Option Finish → World → World
end_round running finish w = record w {
  task = done (outcome_of finish);
  breadcrumb = if w.marked then false else w.breadcrumb;
}
end_round _ finish w = w

abbrev pub time_out : Host → World → World → World
time_out h before w = if h.bounded then answer h.id timed_out w else before

-- The timer of a host that waits, unless the round has settled before.
abbrev pub expire : Task → Option Host → World → World → World
expire (done r) host before w = before
expire task none before w = before
expire task (some h) before w = time_out h before w

pub data Event : Type 0 where
  schedules : String → Event
  timer_fires begins marks resets : Event
  prepares : Bool → Event
  finishes : Option Finish → Event
  resumes expires : ℕ → Event
  configures js_completes : String → Event

-- `runnableConfig`, as the rejection of a configuration, and `configsEquivalent` are the shared core's.
module _ (rejection : String → Option Result) (equivalent : String → String → Bool) where
  abbrev pub start_behind : Option Result → World → World
  start_behind (some r) w = w
  start_behind none w = record w { task = run_gate w.task }

  -- `startNativeRound`, behind `configurationError`.
  unfoldable pub start_native_round : World → World
  start_native_round w = start_behind (rejection w.config) w

  abbrev pub prepare_behind : Option Result → Bool → ℕ → World → World
  prepare_behind (some r) bounded id w = answer id (rejected r) w
  prepare_behind none bounded id w =
      let started = start_native_round w in
      record started {
        waiting = (record { id = id; config = w.config; bounded = bounded }) ∷ started.waiting;
      }

  -- `prepareBundleNative` up to its `await`.
  unfoldable pub prepare_bundle_native : Bool → World → World
  unfolding start_native_round
  prepare_bundle_native bounded w =
      let called = record w { next_host = w.next_host + 1 } in
      if not w.scheduled
      then answer w.next_host (rejected (result_of "skipped" "not_initialized")) called
      else prepare_behind (rejection w.config) bounded w.next_host called

  -- Behind the `await`.
  unfoldable pub answer_of : Host → Result → World → Answer
  answer_of h r w =
      if not (same_generation w.round_config_generation w.config_generation)
        || (not (equivalent h.config w.round_config) || not (equivalent h.config w.config))
      then cancelled "config_changed"
      else if not (same_generation w.round_generation w.reset_generation)
      then cancelled "reset"
      else prepared r

  unfoldable pub resume : Task → Option Host → World → World → World
  unfolding answer_of
  resume (done r) (some h) before w = answer h.id (answer_of h r w) w
  resume _ _ before w = before

  abbrev pub has_js_round : World → Bool
  has_js_round w = not (w.js_completed == "") && equivalent w.js_completed w.config

  abbrev pub fire_timer : Option ℕ → World → World
  unfolding start_native_round
  fire_timer none w = w
  fire_timer (some delay) w =
      if has_js_round w
      then record w { timer = none }
      else start_native_round (record w { timer = none })

  -- `setNativeConfig`, as to what the round sees of it.
  abbrev pub configure : String → World → World
  configure config w =
      if (w.config == "") || (not (w.config == config) && not (equivalent w.config config))
      then record w {
        config = config;
        reset_generation = w.reset_generation + 1;
        config_generation = w.config_generation + 1;
        js_completed = "";
      }
      else w

  unfoldable pub step : Event → World → World
  unfolding schedule_native_sync prepare_bundle_native start_native_round resume
  step (schedules rollback) w = schedule_native_sync rollback w
  step timer_fires w = fire_timer w.timer w
  step (prepares bounded) w = prepare_bundle_native bounded w
  step begins w = begin_round w.task w
  step marks w = mark_incomplete w.task w
  step (finishes finish) w = end_round w.task finish w
  step (resumes k) w =
      resume w.task (nth_of k w.waiting) w (record w { waiting = without_nth k w.waiting })
  step (expires k) w =
      expire w.task (nth_of k w.waiting) w (record w { waiting = without_nth k w.waiting })
  step resets w = record w { reset_generation = w.reset_generation + 1 }
  step (configures config) w = configure config w
  step (js_completes config) w = record w { js_completed = config }

  unfoldable pub run : List Event → World → World
  unfolding step
  run [] w = w
  run (e ∷ es) w = run es (step e w)
