-- ===== src/Harmony/Context/Exclusive/Laws.antt =====
-- What deletions leave of the versions that memory and disk name, and that a launch decides on
-- (harmony/pushy/src/main/ets/UpdateContext.ts).
use react_native_pushy.Common.{
  String, Bool, true, false, not, ◌&&◌, ◌||◌, ◌==◌, if◌then◌else◌, Option, none, List, [], ◌∷◌, ◌≡◌,
  refl, sym, subst, arith, ◌⊎◌, inl, inr, Bool-cases, eq_refl,
}
use react_native_pushy.Common.Pool.{nth_of, without_nth}
use react_native_pushy.Harmony.StateCore
use react_native_pushy.Harmony.StateCore.{
  State, rollback, should_rollback_for_broken_first_load, resolve_launch_state,
}
use react_native_pushy.Harmony.Context.Exclusive.{
  World, is_none, switch_version_call, resume, read_disk, Event, switches, resumes, reads,
  reset_cleanup_starts, resets, flushes, reset_flushes, deletes, step, run,
}
use react_native_pushy.Harmony.Context.Exclusive.Verified.{
  AreVerified, IsKept, AreKept, Inv, undeletable,
}
use react_native_pushy.Harmony.Context.Exclusive.Steps.{spoils, step-Inv}

-- Somewhere in the run a deletion begins that may remove a version in use.
unfoldable pub is_spoiled : List Event → World → Bool
is_spoiled [] w = false
is_spoiled (e ∷ es) w = let rest = is_spoiled es (step e w) in if spoils e w then true else rest

run-Inv : (es : List Event) (w : World) → Inv w → (is_spoiled es w ≡ true) ⊎ Inv (run es w)
unfolding run is_spoiled
run-Inv [] w h = inr h
run-Inv (e ∷ es) w h = elim (Bool-cases (spoils e w)) [
  | inl f ↦ simp f (inl refl)
  | inr f ↦ simp f (run-Inv es (step e w) (step-Inv e w f h))
]

-- A process starts with its versions installed, memory as on disk, no deletion in flight and nothing awaited.
pub record IsStarted (w : World) : Type 0 where
  pub current_installed :
      ((w.state.current_version == "") || w.installed w.state.current_version) ≡ true
  pub last_installed : ((w.state.last_version == "") || w.installed w.state.last_version) ≡ true
  pub loaded : w.disk ≡ w.state
  pub quiet : w.cleanup ≡ none
  pub idle : w.waiting ≡ []

started-Inv : (w : World) → IsStarted w → Inv w
started-Inv w s =
    let both : AreKept w.installed w.cleanup w.state = (
      kept w.state.current_version s.current_installed,
      kept w.state.last_version s.last_installed,
    ) in
    (
      both,
      subst (AreKept w.installed w.cleanup) (sym s.loaded) both,
      subst (AreVerified w.installed w.cleanup w.starts) (sym s.idle) tt,
    )
  where
    kept : (v : String) → ((v == "") || w.installed v) ≡ true → IsKept w.installed w.cleanup v
    kept v h = elim (Bool-cases (v == "")) [
      | inl e ↦ inl e
      | inr e ↦ inr (
        ground (arith, h, e),
        undeletable w.cleanup v (subst (λ c. is_none c ≡ true) (sym s.quiet) refl),
      )
    ]

-- A version that is named is installed.
abbrev pub IsThere : (String → Bool) → String → Type 0
IsThere installed v = ((v == "") ≡ true) ⊎ (installed v ≡ true)

there : (i : String → Bool) (c : Option (List String)) (v : String) → IsKept i c v → IsThere i v
there i c v (inl h) = inl h
there i c v (inr (h, k)) = inr h

-- What a launch decides to load is the current version or the one to roll back to.
launch-IsThere :
    (i : String → Bool) (ignore_rollback : Bool) (s : State)
    → IsThere i s.current_version
    → IsThere i s.last_version
    → IsThere i (resolve_launch_state ignore_rollback true s).load_version
unfolding resolve_launch_state rollback
launch-IsThere i ignore_rollback s a b = elim (Bool-cases (s.current_version == "")) [
  | inl e ↦ simp e (inl refl)
  | inr e ↦ elim (Bool-cases (not ignore_rollback && should_rollback_for_broken_first_load s)) [
    | inl f ↦ simp (e, f) (back (s.last_version == "") refl)
    | inr f ↦ elim (Bool-cases (not ignore_rollback && true && s.first_time)) [
      | inl g ↦ simp (e, f, g) (inr (found e a))
      | inr g ↦ simp (e, f, g) (inr (found e a))
    ]
  ]
]
  where
    back : (t : Bool) → (s.last_version == "") ≡ t → IsThere i (if t then "" else s.last_version)
    back true e = inl refl
    back false e = b

    found :
        (s.current_version == "") ≡ false → IsThere i s.current_version → i s.current_version ≡ true
    found e (inl h) = absurd (ground (arith, e, h))
    found e (inr h) = h

-- A launch on what the disk holds decides on an installed version or on the packaged bundle.
abbrev pub CanLaunch : World → Type 0
CanLaunch w =
    (ignore_rollback : Bool)
    → IsThere w.installed (resolve_launch_state ignore_rollback true w.disk).load_version

-- Over every order of switches, native verifications, downloads, resets, flushes that end or fail, queued
-- deletions and what they remove, either some deletion begins at a bad moment, or the versions that memory
-- and disk name as current and as the one to roll back to are installed at the end, and so is the version
-- that a launch decides on from the disk. The bad moments are the two that the program does not prevent:
-- a deletion begins while the flush of a change of those versions is outstanding or has failed, or the
-- deletion of a reset begins while memory names a version other than the one the process launched.
pub run-installed :
    (es : List Event) (w : World)
    → IsStarted w
    → let after = run es w in
      (is_spoiled es w ≡ true)
      ⊎ ((IsThere after.installed after.state.current_version
            × IsThere after.installed after.state.last_version)
          × (IsThere after.installed after.disk.current_version
              × IsThere after.installed after.disk.last_version)
          × CanLaunch after)
run-installed es w s = elim (run-Inv es w (started-Inv w s)) [
  | inl spoiled ↦ inl spoiled
  | inr ((a, b), (p, q), c) ↦ inr (kept a b p q)
]
  where
    kept :
        let after = run es w in
        IsKept after.installed after.cleanup after.state.current_version
        → IsKept after.installed after.cleanup after.state.last_version
        → IsKept after.installed after.cleanup after.disk.current_version
        → IsKept after.installed after.cleanup after.disk.last_version
        → (IsThere after.installed after.state.current_version
            × IsThere after.installed after.state.last_version)
          × (IsThere after.installed after.disk.current_version
              × IsThere after.installed after.disk.last_version)
          × CanLaunch after
    kept a b p q =
        let after = run es w in
        let at = there after.installed after.cleanup in
        let current = at after.disk.current_version p in
        let last = at after.disk.last_version q in
        (
          (at after.state.current_version a, at after.state.last_version b),
          (current, last),
          λ ignore_rollback. launch-IsThere after.installed ignore_rollback after.disk current last,
        )

abbrev pub reset_then_switch : String → List Event
reset_then_switch hash =
    resets
    ∷ reset_flushes true
    ∷ switches hash
    ∷ reads 0
    ∷ resumes 0
    ∷ flushes
    ∷ reset_cleanup_starts
    ∷ deletes hash
    ∷ []

-- Memory is as on disk, nothing is deleted and nothing awaited.
abbrev pub quiet_world : State → String → (String → Bool) → World
quiet_world state launch_version installed = record {
  state = state;
  disk = state;
  launch_version = launch_version;
  reset_generation = 0;
  resetting = 0;
  owed = 0;
  installed = installed;
  cleanup = none;
  starts = 0;
  waiting = [];
  failures = 0;
}

-- The deletion that a reset queues keeps only the version that the process launched. If it begins
-- after a switch to another installed version, which the reset does not hinder, it may delete that
-- version, though its flush has ended: the next launch would then open a version that is not installed.
pub run-reset_then_switch :
    (state : State) (launch_version hash : String) (installed : String → Bool)
    → installed hash ≡ true
    → (launch_version == hash) ≡ false
    → let after = run (reset_then_switch hash) (quiet_world state launch_version installed) in
      (after.state.current_version ≡ hash)
      × (after.disk.current_version ≡ hash)
      × (after.installed hash ≡ false)
unfolding run step switch_version_call resume read_disk nth_of without_nth StateCore.switch_version
run-reset_then_switch state launch_version hash installed i l =
    simp (i, l, eq_refl) (refl, refl, refl)
