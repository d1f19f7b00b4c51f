-- ===== src/Harmony/Context/Cleared.antt =====
-- What a reset and a binary upgrade (harmony/pushy/src/main/ets/UpdateContext.ts) clear from the state
-- store, and what survives them.
use react_native_pushy.Common.{
  ◌+◌, String, Bool, true, false, ◌&&◌, ◌||◌, ◌==◌, if◌then◌else◌, ◌≡◌, refl, ap, ◌∙◌, arith,
  eq_iff, Bool-cases, inl, inr, contains,
}
use react_native_pushy.Common.Int.{ℤ}
use react_native_pushy.Json.{undef, Fields, no_fields, entry, get, del}
use react_native_pushy.Json.Laws.{get-del}
use react_native_pushy.Harmony.StateCore
use react_native_pushy.Harmony.StateCore.{State}
use react_native_pushy.Harmony.Store.{
  read_state, write_state, key_hash_info, key_first_load_marker, key_check_cache,
}
use react_native_pushy.Harmony.Store.Laws.{read_state-write_state, state_keys}
use react_native_pushy.Harmony.Context.{
  Context, flush, has_prefix, remove_prefixed, remove_keys, clear_check_cache, reset_state,
  reset_to_packaged_bundle, sync_state_with_binary_version,
}

get-remove_prefixed :
    (prefix k : String) (fs : Fields)
    → get k (remove_prefixed prefix fs) ≡ (if has_prefix prefix k then undef else get k fs)
unfolding remove_prefixed get
get-remove_prefixed prefix k no_fields = ground arith
get-remove_prefixed prefix k (entry j v fs) =
    let rest = get-remove_prefixed prefix k fs in
    elim (Bool-cases (j == k)) [
      | inl e ↦
          let same = ap (has_prefix prefix) ((eq_iff j k).0 e) in
          elim (Bool-cases (has_prefix prefix k)) [
            | inl h ↦ simp (e, same, h) (rest ∙ simp h refl)
            | inr h ↦ simp (e, same, h) refl
          ]
      | inr e ↦ elim (Bool-cases (has_prefix prefix j)) [
        | inl h ↦ simp (e, h) rest
        | inr h ↦ simp (e, h) rest
      ]
    ]

abbrev pub is_cleared : Bool → String → Bool
is_cleared readable k = (readable && has_prefix key_hash_info k) || (key_first_load_marker == k)

get-remove_keys :
    (readable : Bool) (k : String) (store : Fields)
    → get k (remove_keys readable store) ≡ (if is_cleared readable k then undef else get k store)
unfolding remove_keys
get-remove_keys readable k store = ground (
  arith,
  get-remove_prefixed key_hash_info k (del key_first_load_marker store),
  get-del k key_first_load_marker store,
)

cleared-store :
    (f g : Bool) (c : Context)
    → ((clear_check_cache g (flush f c)).store ≡ c.store)
      × ((clear_check_cache g (flush f c)).cache ≡ del key_check_cache c.cache)
unfolding clear_check_cache
cleared-store true true c = (refl, refl)
cleared-store true false c = (refl, refl)
cleared-store false true c = (refl, refl)
cleared-store false false c = (refl, refl)

module _ (show : ℤ → String) where
  -- The state is this one; the first-launch marker and the cached response are gone, and so are the version
  -- infos where the store can be read; every other key is as it was.
  pub record IsCleared (s : State) (readable : Bool) (before after : Context) : Type 0 where
    pub state : read_state show after.store ≡ s
    pub kept :
        (k : String)
        → contains k state_keys ≡ false
        → get k after.store ≡ (if is_cleared readable k then undef else get k before.store)
    pub uncached : get key_check_cache after.cache ≡ undef

  IsCleared-write_state :
      (s : State) (readable f g : Bool) (before c : Context)
      → c.store ≡ write_state s (remove_keys readable before.store)
      → IsCleared s readable before (clear_check_cache g (flush f c))
  IsCleared-write_state s readable f g before c e =
      let (stored, cached) = cleared-store f g c in
      let (back, frame) = read_state-write_state show s (remove_keys readable before.store) in
      record {
        state = ap (read_state show) (stored ∙ e) ∙ back;
        kept = λ k h. ap (get k) (stored ∙ e) ∙ frame k h ∙ get-remove_keys readable k before.store;
        uncached =
            ap (get key_check_cache) cached ∙ get-del key_check_cache key_check_cache c.cache;
      }

  -- A reset to the packaged bundle, and the first launch of another binary, leave the same in memory: the state of
  -- that binary without any version, no first-launch marker, no cached response, no version info unless
  -- the store could not be read as a whole, in which case each is as it was, and every other key, the
  -- uuid and the native configuration among them, as it was.
  pub reset_to_packaged_bundle-IsCleared :
      (package_version build_time : String) (readable f g : Bool) (c : Context)
      → (package_version == "") ≡ false
      → (build_time == "") ≡ false
      → IsCleared
          (reset_state show package_version build_time)
          readable
          c
          (reset_to_packaged_bundle show package_version build_time readable f g c)
        × (StateCore.is_changed package_version build_time (read_state show c.store) ≡ true
            → IsCleared
                (reset_state show package_version build_time)
                readable
                c
                (sync_state_with_binary_version show package_version build_time readable f g c))
  unfolding reset_to_packaged_bundle sync_state_with_binary_version StateCore.sync_binary_version
  reset_to_packaged_bundle-IsCleared p b readable f g c n m = (
    (let r =
          IsCleared-write_state (reset_state show p b) readable f g c
            (record c {
              reset_generation = c.reset_generation + 1;
              store = write_state (reset_state show p b) (remove_keys readable c.store);
            })
            refl in
        record { state = r.state; kept = r.kept; uncached = r.uncached }),
    λ changed.
        simp (n, m, changed)
          (IsCleared-write_state (reset_state show p b) readable f g c
            (record c {
              ignore_rollback = false;
              store = write_state (reset_state show p b) (remove_keys readable c.store);
            })
            refl),
  )
