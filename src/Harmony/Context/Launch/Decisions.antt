-- ===== src/Harmony/Context/Launch/Decisions.antt =====
-- What a launch decides on the state of a switch (resolveLaunchState, called by getBundleUrl of
-- harmony/pushy/src/main/ets/UpdateContext.ts).
use react_native_pushy.Common.{
  Bool, true, false, ◌==◌, ◌≡◌, refl, sym, Bool-cases, inl, inr, eq_iff,
}
use react_native_pushy.Harmony.StateCore.{State, LaunchDecision, resolve_launch_state, rollback}

-- A switch that no launch has consumed yet.
pub record IsFreshSwitch (s : State) : Type 0 where
  pub named : (s.current_version == "") ≡ false
  pub unconsumed : s.first_time ≡ true
  pub unconfirmed : s.first_time_ok ≡ false

abbrev pub consumed : State → LaunchDecision
consumed s = record {
  state = record s { first_time = false };
  load_version = s.current_version;
  did_rollback = false;
  consumed_first_time = true;
}

abbrev pub rolled_back : State → LaunchDecision
rolled_back s = record {
  state = rollback s;
  load_version = (rollback s).current_version;
  did_rollback = true;
  consumed_first_time = false;
}

abbrev pub plain : State → LaunchDecision
plain s = record {
  state = s;
  load_version = s.current_version;
  did_rollback = false;
  consumed_first_time = false;
}

pub resolve-fresh : (s : State) → IsFreshSwitch s → resolve_launch_state false true s ≡ consumed s
unfolding resolve_launch_state
resolve-fresh s f = simp (f.named, f.unconsumed) refl

pub resolve-unconfirmed :
    (s : State)
    → (s.current_version == "") ≡ false
    → s.first_time ≡ false
    → s.first_time_ok ≡ false
    → resolve_launch_state false true s ≡ rolled_back s
unfolding resolve_launch_state
resolve-unconfirmed s n f g = simp (n, f, g) refl

pub rollback-only : (s : State) → s.last_version ≡ "" → (rollback s).current_version ≡ ""
unfolding rollback
rollback-only s e = rw e refl

pub rollback-last : (s : State) → (rollback s).last_version ≡ ""
unfolding rollback
rollback-last s = elim (Bool-cases (s.last_version == "")) [
  | inl e ↦ rw e ((eq_iff s.last_version "").0 e)
  | inr e ↦ rw e refl
]

pub rollback-before : (s : State) → (rollback s).current_version ≡ s.last_version
unfolding rollback
rollback-before s = elim (Bool-cases (s.last_version == "")) [
  | inl e ↦ rw e (sym ((eq_iff s.last_version "").0 e))
  | inr e ↦ rw e refl
]

pub resolve-cong :
    (a b : Bool) (s t : State)
    → a ≡ b
    → s ≡ t
    → resolve_launch_state a true s ≡ resolve_launch_state b true t
resolve-cong a b s t e f = cc
