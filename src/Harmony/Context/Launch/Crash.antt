-- ===== src/Harmony/Context/Launch/Crash.antt =====
-- Crash protection over two processes (getBundleUrl and markSuccess of
-- harmony/pushy/src/main/ets/UpdateContext.ts).
use react_native_pushy.Common.{
  ℕ, suc, String, Bool, true, false, ◌==◌, if◌then◌else◌, List, [], ◌∷◌, ◌≡◌, refl, sym, subst, ap,
  ◌∙◌, Bool-cases, inl, inr,
}
use react_native_pushy.Common.Int.{ℤ}
use react_native_pushy.Harmony.StateCore
use react_native_pushy.Harmony.StateCore.{
  State, LaunchDecision, resolve_launch_state, rollback, should_rollback_for_broken_first_load,
}
use react_native_pushy.Harmony.Store.{read_state, write_marker, write_state, key_first_load_marker}
use react_native_pushy.Harmony.Store.Laws.{read_state-write_state}
use react_native_pushy.Harmony.Context.{Context, restart, mark_success}
use react_native_pushy.Harmony.Context.Laws.{read_state-mark_success}
use react_native_pushy.Harmony.Context.Launch.{
  Bundle, packaged, bundle_of, roll_back, open_version, persist_launch, start_from, get_bundle_url,
}
use react_native_pushy.Harmony.Context.Launch.Laws.{
  state_of, state-roll_back, read-write_marker, state-persist_launch,
}
use react_native_pushy.Harmony.Context.Launch.Decisions.{
  IsFreshSwitch, consumed, rolled_back, plain, resolve-fresh, resolve-unconfirmed, rollback-only,
  rollback-last, rollback-before, resolve-cong,
}

-- The bundle that a version gives without a version before it.
abbrev pub only_bundle : (String → Bool) → String → Bundle
only_bundle access v = if v == "" then packaged else if access v then bundle_of v else packaged

module _ (show : ℤ → String) (access : String → Bool) where
  open_version-found :
      (flushed : Bool) (fuel : ℕ) (version : String) (c : Context)
      → (version == "") ≡ false
      → access version ≡ true
      → open_version show access flushed (suc fuel) [] version c
        ≡ (record c { launch_version = version }, bundle_of version)
  unfolding open_version
  open_version-found flushed fuel version c e f = simp (e, f) refl

  open_version-none :
      (flushed : Bool) (fuel : ℕ) (visited : List String) (version : String) (c : Context)
      → version ≡ ""
      → (open_version show access flushed (suc fuel) visited version c).1 ≡ packaged
  unfolding open_version
  open_version-none flushed fuel visited version c e = rw e refl

  open_version-only :
      (flushed : Bool) (version : String) (c : Context)
      → (state_of show c).last_version ≡ ""
      → (open_version show access flushed 3 [] version c).1 ≡ only_bundle access version
  unfolding open_version
  open_version-only flushed version c e =
      let back = roll_back show flushed c in
      let left =
        ap (λ (s : State). s.current_version) (state-roll_back show flushed c)
        ∙ rollback-only (state_of show c) e in
      let rest =
        open_version-none flushed 1 (version ∷ []) (state_of show back).current_version back left in
      elim (Bool-cases (version == "")) [
        | inl a ↦ simp a refl
        | inr a ↦ elim (Bool-cases (access version)) [
          | inl b ↦ simp (a, b) refl
          | inr b ↦ simp (a, b) rest
        ]
      ]

  -- The first launch of a switch.
  launch-fresh :
      (c : Context) (s : State)
      → state_of show c ≡ s
      → c.ignore_rollback ≡ false
      → IsFreshSwitch s
      → access s.current_version ≡ true
      → let first = get_bundle_url show access true c in
        (first.1 ≡ bundle_of s.current_version)
        × (state_of show first.0 ≡ record s { first_time = false })
        × (first.0.disk ≡ first.0.store)
  unfolding get_bundle_url start_from persist_launch
  launch-fresh c s e i f a =
      let q = resolve-cong c.ignore_rollback false (state_of show c) s i e ∙ resolve-fresh s f in
      let written =
        write_marker key_first_load_marker true (write_state (consumed s).state c.store) in
      let kept : Context = record c { store = written; disk = written; ignore_rollback = true } in
      let ends =
        ap (λ d. start_from show access true d c) q
        ∙ open_version-found true 2 s.current_version kept f.named a in
      let back =
        read-write_marker show true (write_state (consumed s).state c.store)
        ∙ (read_state-write_state show (consumed s).state c.store).0 in
      (
        ap (λ (p : Context × Bundle). p.1) ends,
        ap (λ (p : Context × Bundle). state_of show p.0) ends ∙ back,
        ap (λ (p : Context × Bundle). p.0.disk) ends
            ∙ sym (ap (λ (p : Context × Bundle). p.0.store) ends),
      )

  -- The launch after it, of a version that was not confirmed.
  launch-unconfirmed :
      (flushed : Bool) (c : Context) (s : State)
      → state_of show c ≡ s
      → c.ignore_rollback ≡ false
      → (s.current_version == "") ≡ false
      → s.first_time ≡ false
      → s.first_time_ok ≡ false
      → (get_bundle_url show access flushed c).1 ≡ only_bundle access (rollback s).current_version
  unfolding get_bundle_url start_from
  launch-unconfirmed flushed c s e i n f g =
      let q =
        resolve-cong c.ignore_rollback false (state_of show c) s i e
        ∙ resolve-unconfirmed s n f g in
      ap (λ d. (start_from show access flushed d c).1) q
      ∙ open_version-only flushed (rollback s).current_version _ (
          ap (λ (t : State). t.last_version)
            (state-persist_launch show flushed (rolled_back s) c (λ h. cc))
          ∙ rollback-last s)

mark_success-state :
    (s : State)
    → ((StateCore.mark_success s).first_time ≡ false)
      × ((StateCore.mark_success s).first_time_ok ≡ true)
      × ((StateCore.mark_success s).current_version ≡ s.current_version)
unfolding StateCore.mark_success
mark_success-state s = (refl, refl, refl)

resolve-confirmed :
    (s : State)
    → (s.current_version == "") ≡ false
    → s.first_time ≡ false
    → s.first_time_ok ≡ true
    → resolve_launch_state false true s ≡ plain s
unfolding resolve_launch_state should_rollback_for_broken_first_load
resolve-confirmed s n f g = simp (n, f, g) refl

module _ (show : ℤ → String) (access : String → Bool) where
  -- A launch of a confirmed version.
  launch-confirmed :
      (flushed : Bool) (c : Context) (s : State)
      → state_of show c ≡ s
      → c.ignore_rollback ≡ false
      → (s.current_version == "") ≡ false
      → s.first_time ≡ false
      → s.first_time_ok ≡ true
      → access s.current_version ≡ true
      → (get_bundle_url show access flushed c).1 ≡ bundle_of s.current_version
  unfolding get_bundle_url start_from persist_launch
  launch-confirmed flushed c s e i n f g a =
      let q =
        resolve-cong c.ignore_rollback false (state_of show c) s i e ∙ resolve-confirmed s n f g in
      ap (λ d. (start_from show access flushed d c).1) q
      ∙ ap (λ (p : Context × Bundle). p.1)
          (open_version-found show access flushed 2 s.current_version c n a)

module _ (show : ℤ → String) (access later : String → Bool) (c : Context) where
  -- A version that is switched to gets one launch to confirm itself. In a process that starts with such
  -- a switch, its bundle accessible and the disk writable, that bundle is opened; if the process ends
  -- without a markSuccess, the next process never opens it: it opens the version before the switch, or
  -- the packaged bundle where there is none or its bundle is gone.
  pub crash-rollback :
      (flushed : Bool)
      → c.ignore_rollback ≡ false
      → IsFreshSwitch (state_of show c)
      → access (state_of show c).current_version ≡ true
      → let first = get_bundle_url show access true c in
        (first.1 ≡ bundle_of (state_of show c).current_version)
        × ((get_bundle_url show later flushed (restart first.0)).1
            ≡ only_bundle later (state_of show c).last_version)
  unfolding restart
  crash-rollback flushed i f a =
      let s = state_of show c in
      let (opened, state, saved) = launch-fresh show access c s refl i f a in
      let again = ap (read_state show) saved ∙ state in
      (
        opened,
        launch-unconfirmed show later flushed (restart (get_bundle_url show access true c).0)
              (record s { first_time = false }) again refl f.named refl f.unconfirmed
            ∙ ap (only_bundle later) (rollback-before (record s { first_time = false })),
      )

  -- If the first process confirms the version by markSuccess before it ends, the next one opens it
  -- again where its bundle is still accessible.
  pub crash-confirmed :
      (flushed : Bool)
      → c.ignore_rollback ≡ false
      → IsFreshSwitch (state_of show c)
      → access (state_of show c).current_version ≡ true
      → later (state_of show c).current_version ≡ true
      → let first = get_bundle_url show access true c in
        let confirmed = mark_success show false true first.0 in
        (get_bundle_url show later flushed (restart confirmed)).1
        ≡ bundle_of (state_of show c).current_version
  unfolding restart
  crash-confirmed flushed i f a b =
      let s = state_of show c in
      let first = (get_bundle_url show access true c).0 in
      let (opened, state, saved) = launch-fresh show access c s refl i f a in
      let (marked, written) = read_state-mark_success show first in
      let t = StateCore.mark_success (record s { first_time = false }) in
      let again = ap (read_state show) written ∙ (marked ∙ ap StateCore.mark_success state) in
      let (time, fine, same) = mark_success-state (record s { first_time = false }) in
      launch-confirmed show later flushed (restart (mark_success show false true first)) t again
        refl (subst (λ (v : String). (v == "") ≡ false) (sym same) f.named) time fine
        (subst (λ (v : String). later v ≡ true) (sym same) b)
      ∙ ap bundle_of same
