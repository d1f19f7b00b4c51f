-- ===== src/Harmony/Context/Commit/Stale.antt =====
-- A commit of the native round (harmony/pushy/src/main/ets/UpdateContext.ts) that settles after other
-- operations, a reset or a new configuration among them.
use react_native_pushy.Common.{
  ◌+◌, ◌≤◌, String, Bool, true, false, not, ◌&&◌, ◌||◌, ◌==◌, beq, if◌then◌else◌, List, [], ◌∷◌,
  ◌≡◌, refl, arith, inl, inr, Bool-cases,
}
use react_native_pushy.Common.Int.{ℤ}
use react_native_pushy.Harmony.Store.{read, key_native_config}
use react_native_pushy.Harmony.Context.{
  Context, flush, flush_cache, run_state_operation, apply_switch, reset_to_packaged_bundle,
  set_native_config, mark_success, clear_rollback_mark, clear_check_cache, with_uuid,
}
use react_native_pushy.Harmony.Context.Commit.{
  discarded, refused, SyncResult, should_switch, commit_sync_result, switch_version, Operation,
  resets, configures, confirms, clears_rollback, activates, operate, operate_all,
}

flush-generation : (f : Bool) (c : Context) → (flush f c).reset_generation ≡ c.reset_generation
flush-generation true c = refl
flush-generation false c = refl

flush_cache-generation :
    (f : Bool) (c : Context) → (flush_cache f c).reset_generation ≡ c.reset_generation
flush_cache-generation true c = refl
flush_cache-generation false c = refl

cleared-generation :
    (f g : Bool) (c : Context)
    → (clear_check_cache g (flush f c)).reset_generation ≡ c.reset_generation
unfolding clear_check_cache
cleared-generation true true c = refl
cleared-generation true false c = refl
cleared-generation false true c = refl
cleared-generation false false c = refl

module _ (show : ℤ → String) where
  reset_to_packaged_bundle-generation :
      (p b : String) (readable f g : Bool) (c : Context)
      → (reset_to_packaged_bundle show p b readable f g c).reset_generation ≡ c.reset_generation + 1
  unfolding reset_to_packaged_bundle
  reset_to_packaged_bundle-generation p b readable f g c = cleared-generation f g _

  module _ (equivalent : String → String → Bool) where
    set_native_config-generation :
        (fresh config : String) (f g : Bool) (c : Context)
        → c.reset_generation
          ≤ (set_native_config show equivalent fresh config f g c).reset_generation
    unfolding set_native_config
    set_native_config-generation fresh config f g c =
        let current = read show key_native_config (with_uuid show fresh c.store) in
        let changed =
          (current == "") || (not (current == config) && not (equivalent current config)) in
        elim (Bool-cases changed) [
          | inl e ↦ simp (e, cleared-generation) (omega arith)
          | inr e ↦ simp (e, flush-generation) (omega arith)
        ]

    operate-generation :
        (o : Operation) (c : Context)
        → c.reset_generation ≤ (operate show equivalent o c).reset_generation
    unfolding operate clear_rollback_mark run_state_operation mark_success apply_switch
    operate-generation (resets p b readable f g) c =
        omega (arith, reset_to_packaged_bundle-generation p b readable f g c)
    operate-generation (configures fresh config f g) c =
        set_native_config-generation fresh config f g c
    operate-generation (confirms true) c = omega arith
    operate-generation (confirms false) c = omega arith
    operate-generation (clears_rollback true) c = omega arith
    operate-generation (clears_rollback false) c = omega arith
    operate-generation (activates hash) c = omega arith

    operate_all-generation :
        (os : List Operation) (c : Context)
        → c.reset_generation ≤ (operate_all show equivalent os c).reset_generation
    unfolding operate_all
    operate_all-generation [] c = omega arith
    operate_all-generation (o ∷ os) c =
        omega
          (arith, operate-generation o c, operate_all-generation os (operate show equivalent o c))

  -- What a batch of other operations leaves, with a reset among them.
  abbrev pub around_reset :
      (String → String → Bool)
      → List Operation
      → String
      → String
      → Bool
      → Bool
      → Bool
      → List Operation
      → Context
      → Context
  around_reset equivalent before p b readable f g after c =
      operate_all show equivalent after
        (reset_to_packaged_bundle show p b readable f g (operate_all show equivalent before c))

  around_reset-generation :
      (equivalent : String → String → Bool) (before after : List Operation) (p b : String)
      (readable f g : Bool) (c : Context)
      → beq
          (around_reset equivalent before p b readable f g after c).reset_generation
          c.reset_generation
        ≡ false
  around_reset-generation equivalent before after p b readable f g c =
      let middle = operate_all show equivalent before c in
      let reset = reset_to_packaged_bundle show p b readable f g middle in
      ground (
        arith,
        operate_all-generation equivalent before c,
        reset_to_packaged_bundle-generation p b readable f g middle,
        operate_all-generation equivalent after reset,
      )

  -- An activation of the native round, or of a switch, that was started before a reset to the packaged bundle is
  -- discarded when it settles after it: whatever other operations ran before and after the reset, it
  -- changes nothing and does not report success.
  pub commit_sync_result-stale :
      (equivalent : String → String → Bool) (before after : List Operation) (p b : String)
      (readable f g : Bool) (r : SyncResult) (verified flushed cache_flushed : Bool) (c : Context)
      → should_switch r ≡ true
      → let later = around_reset equivalent before p b readable f g after c in
        let stop = if verified then discarded else refused in
        (commit_sync_result show
            (record r { expected_generation = c.reset_generation })
            verified
            flushed
            cache_flushed
            later
            c
          ≡ (later, stop))
        × (switch_version show r.hash c.reset_generation verified flushed later ≡ (later, stop))
  unfolding commit_sync_result switch_version
  commit_sync_result-stale equivalent before after p b readable f g r verified flushed cache_flushed
        c h =
      let here : beq c.reset_generation c.reset_generation ≡ true = ground arith in
      let stale = around_reset-generation equivalent before after p b readable f g c in
      elim (Bool-cases verified) [
        | inl e ↦ simp (e, h, stale, here) (refl, refl)
        | inr e ↦ simp (e, h, stale, here) (refl, refl)
      ]
