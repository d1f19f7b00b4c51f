-- ===== src/Harmony/Context/Launch/Laws.antt =====
-- The launch (getBundleUrl of harmony/pushy/src/main/ets/UpdateContext.ts) of one process.
use mathlib.Core.Bool.{false≢true}
use react_native_pushy.Common.{
  ℕ, zero, suc, ◌≤◌, String, Bool, true, false, ◌||◌, ◌==◌, if◌then◌else◌, List, [], ◌∷◌, contains,
  ◌≡◌, refl, sym, subst, ap, ◌∙◌, arith, Bool-cases, inl, inr, eq_iff,
}
use react_native_pushy.Common.Int.{ℤ}
use react_native_pushy.Json.{str, Fields}
use react_native_pushy.Json.Laws.{get-put, get-del}
use react_native_pushy.Harmony.StateCore.{State, LaunchDecision, resolve_launch_state, rollback}
use react_native_pushy.Harmony.Store.{
  read_state, write_marker, write_state, key_first_load_marker, boolean_true,
}
use react_native_pushy.Harmony.Store.Laws.{read_state-write_state, read_state-cong, state_keys}
use react_native_pushy.Harmony.Context.{Context, flush, run_state_operation}
use react_native_pushy.Harmony.Context.Launch.{
  Bundle, cut_short, packaged, bundle_of, roll_back, open_version, persist_launch, start_from,
  get_bundle_url,
}

abbrev pub state_of : (ℤ → String) → Context → State
state_of show c = read_state show c.store

-- How many rounds the loop can take.
abbrev pub rank : State → ℕ
rank s = if s.current_version == "" then 1 else if s.last_version == "" then 2 else 3

-- The bundle of a version is accessible, and the version is the current one.
abbrev pub IsOpened : (ℤ → String) → (String → Bool) → Context × Bundle → Type 0
IsOpened show access (c, cut_short) = ⊥
IsOpened show access (c, packaged) = Unit
IsOpened show access (c, bundle_of v) =
    (access v ≡ true) × ((state_of show c).current_version ≡ v) × (c.launch_version ≡ v)

rank-rollback :
    (s : State) (fuel : ℕ)
    → (s.current_version == "") ≡ false
    → rank s ≤ suc fuel
    → rank (rollback s) ≤ fuel
unfolding rollback
rank-rollback s fuel e h = elim (Bool-cases (s.last_version == "")) [
  | inl f ↦ simp f (ground (arith, f, e))
  | inr f ↦ simp f (ground (arith, f, e))
]

-- The marker of the first load is no key of the state.
apart : (k : String) → contains k state_keys ≡ true → (key_first_load_marker == k) ≡ false
apart k h = elim (Bool-cases (key_first_load_marker == k)) [
  | inr e ↦ e
  | inl e ↦ absurd (
      false≢true (
        subst (λ (t : String). contains t state_keys ≡ true)
          (sym ((eq_iff key_first_load_marker k).0 e)) h))
]

rank-le : (s : State) → rank s ≤ 3
rank-le s = ground arith

module _ (show : ℤ → String) where
  pub state-flush :
      (flushed : Bool) (c : Context) → state_of show (flush flushed c) ≡ state_of show c
  state-flush true c = refl
  state-flush false c = refl

  pub state-run_state_operation :
      (f : State → State) (c : Context)
      → state_of show (run_state_operation show f c) ≡ f (state_of show c)
  unfolding run_state_operation
  state-run_state_operation f c = (read_state-write_state show (f (state_of show c)) c.store).0

  pub state-roll_back :
      (flushed : Bool) (c : Context)
      → state_of show (roll_back show flushed c) ≡ rollback (state_of show c)
  unfolding roll_back
  state-roll_back flushed c =
      state-flush flushed (run_state_operation show rollback c)
      ∙ state-run_state_operation rollback c

  module _ (access : String → Bool) (flushed : Bool) where
    open_version-IsOpened :
        (fuel : ℕ) (visited : List String) (version : String) (c : Context)
        → version ≡ (state_of show c).current_version
        → rank (state_of show c) ≤ fuel
        → IsOpened show access (open_version show access flushed fuel visited version c)
    unfolding open_version
    open_version-IsOpened zero visited version c e h = ground (arith, h)
    open_version-IsOpened (suc fuel) visited version c e h =
        let back = roll_back show flushed c in
        elim (Bool-cases ((version == "") || contains version visited)) [
          | inl done ↦ simp done tt
          | inr more ↦ elim (Bool-cases (access version)) [
            | inl found ↦ simp (more, found) (refl, sym e, refl)
            | inr missing ↦
                simp (more, missing)
                  (open_version-IsOpened fuel (version ∷ visited)
                    (state_of show back).current_version back refl
                    (subst (λ t. rank t ≤ fuel) (sym (state-roll_back flushed c))
                      (rank-rollback (state_of show c) fuel (ground (arith, more, e)) h)))
          ]
        ]

  pub read-write_marker :
      (set : Bool) (store : Fields)
      → read_state show (write_marker key_first_load_marker set store) ≡ read_state show store
  unfolding write_marker
  read-write_marker set store =
      read_state-cong show (write_marker key_first_load_marker set store) store (λ k h. ground (
        arith,
        apart k h,
        get-put k key_first_load_marker (str boolean_true) store,
        get-del k key_first_load_marker store,
      ))

  -- The state that a launch decision leaves.
  pub state-persist_launch :
      (flushed : Bool) (d : LaunchDecision) (c : Context)
      → ((d.did_rollback || d.consumed_first_time) ≡ false → d.state ≡ state_of show c)
      → state_of show (persist_launch flushed d c) ≡ d.state
  unfolding persist_launch
  state-persist_launch flushed d c kept =
      let written = (read_state-write_state show d.state c.store).0 in
      elim (Bool-cases (d.did_rollback || d.consumed_first_time)) [
        | inr e ↦ simp e (sym (kept e))
        | inl e ↦ simp e (
            state-flush flushed _ ∙ (elim (Bool-cases d.consumed_first_time) [
              | inl f ↦ simp f (read-write_marker true (write_state d.state c.store) ∙ written)
              | inr f ↦ simp f written
            ]))
      ]

  resolve_launch_state_kept :
      (ignore : Bool) (s : State)
      → let d = resolve_launch_state ignore true s in
        (d.load_version ≡ d.state.current_version)
        × ((d.did_rollback || d.consumed_first_time) ≡ false → d.state ≡ s)
  unfolding resolve_launch_state
  resolve_launch_state_kept ignore s = ground arith

  -- Whatever the persisted state holds, and whichever bundles can be accessed, a launch ends with the
  -- packaged bundle or with an accessible bundle of the version that is then current: the loop over
  -- the versions is never cut short.
  pub get_bundle_url-IsOpened :
      (access : String → Bool) (flushed : Bool) (c : Context)
      → IsOpened show access (get_bundle_url show access flushed c)
  unfolding get_bundle_url start_from
  get_bundle_url-IsOpened access flushed c =
      let d = resolve_launch_state c.ignore_rollback true (state_of show c) in
      let (loads, same) = resolve_launch_state_kept c.ignore_rollback (state_of show c) in
      let kept = state-persist_launch flushed d c same in
      open_version-IsOpened access flushed 3 [] d.load_version _
        (loads ∙ sym (ap (λ (s : State). s.current_version) kept))
        (rank-le (state_of show (persist_launch flushed d c)))
