-- ===== src/Harmony/Store/Migration/Laws.antt =====
-- What a migration (harmony/pushy/src/main/ets/StoreSchema.ts) leaves on disk.
use react_native_pushy.Common.{
  String, Bool, true, false, not, ◌&&◌, ◌==◌, if◌then◌else◌, ◌≡◌, ◌≢◌, refl, sym, ◌∙◌, arith,
  Bool-cases, ◌⊎◌, inl, inr, none, some, List, [], ◌∷◌,
}
use react_native_pushy.Json.{Value, str, Fields, get, put}
use react_native_pushy.Json.Laws.{get-put}
use react_native_pushy.Harmony.Store.{key_uuid}
use react_native_pushy.Harmony.Store.Migration.{
  MigrationPlan, Stores, retry, put_all, carry_uuid, apply_plan, migrate_store, is_full_text,
  is_empty, done, remove_legacy,
}

-- The text last put under a key.
unfoldable pub last_put : String → List (String × String) → Value → Value
last_put k [] v = v
last_put k ((j, w) ∷ puts) v = last_put k puts (if j == k then str w else v)

get-put_all :
    (k : String) (puts : List (String × String)) (fs : Fields)
    → get k (put_all puts fs) ≡ last_put k puts (get k fs)
unfolding put_all last_put
get-put_all k [] fs = refl
get-put_all k ((j, w) ∷ puts) fs =
    rw (← get-put k j (str w) fs) (get-put_all k puts (put j (str w) fs))

not_retry : (plan : MigrationPlan) → done plan ≢ retry
not_retry plan h = ground (arith, h)

-- The legacy store is as it was, or the state store holds the plan's texts in memory and, where there
-- are any, on disk.
abbrev pub IsSafe : List (String × String) → Stores → Stores → Type 0
IsSafe puts before after =
    ((after.legacy ≡ before.legacy) × (after.legacy_disk ≡ before.legacy_disk))
    ⊎ (((k : String) → get k after.state ≡ last_put k puts (get k before.state))
        × ((after.state_disk ≡ after.state) ⊎ (is_empty puts ≡ true)))

remove_legacy-state :
    (ks : List String) (g : Bool) (s : Stores)
    → ((remove_legacy ks g s).state ≡ s.state) × ((remove_legacy ks g s).state_disk ≡ s.state_disk)
remove_legacy-state [] g s = (refl, refl)
remove_legacy-state (k ∷ ks) true s = (refl, refl)
remove_legacy-state (k ∷ ks) false s = (refl, refl)

-- Legacy keys are deleted, in memory or on disk, only once everything that the plan puts is in the state
-- store and on its disk; a migration that has to be retried leaves the legacy store as it was.
pub migrate_store-IsSafe :
    (plan : MigrationPlan) (state_flushed legacy_flushed : Bool) (s : Stores)
    → let (after, result) = migrate_store (some plan) state_flushed legacy_flushed s in
      IsSafe plan.puts s after
      × (result ≡ retry
          → (after.legacy ≡ s.legacy)
            × (after.legacy_disk ≡ s.legacy_disk)
            × (after.state_disk ≡ s.state_disk))
unfolding migrate_store apply_plan
migrate_store-IsSafe plan f g s = elim (Bool-cases (is_empty plan.puts)) [
  | inl e ↦
      let kept =
        remove_legacy-state plan.removes g (record s { state = put_all plan.puts s.state }) in
      simp e (
        inr ((λ k. rw kept.0 (get-put_all k plan.puts s.state)), inr refl),
        λ r. absurd (not_retry plan r),
      )
  | inr e ↦ elim (Bool-cases f) [
    | inr n ↦ simp (e, n) (inl (refl, refl), λ r. (refl, refl, refl))
    | inl n ↦
        let kept = remove_legacy-state plan.removes g (record s {
          state = put_all plan.puts s.state;
          state_disk = put_all plan.puts s.state;
        }) in
        simp (e, n)
          (
            inr ((λ k. rw kept.0 (get-put_all k plan.puts s.state)), inl (kept.1 ∙ sym kept.0)),
            λ r. absurd (not_retry plan r),
          )
  ]
]

-- A migration that cannot run keeps the identity of the install: if either store holds a uuid, the
-- state store has one in memory afterwards, its own where it had one; the legacy store and every other
-- key are as they were.
pub migrate_store-uuid :
    (state_flushed legacy_flushed : Bool) (s : Stores)
    → let after = (migrate_store none state_flushed legacy_flushed s).0 in
      (get key_uuid after.state ≡ (
        if not (is_full_text (get key_uuid s.state)) && is_full_text (get key_uuid s.legacy)
        then get key_uuid s.legacy
        else get key_uuid s.state))
      × ((k : String) → (key_uuid == k) ≡ false → get k after.state ≡ get k s.state)
      × (after.legacy ≡ s.legacy)
      × (after.legacy_disk ≡ s.legacy_disk)
unfolding migrate_store carry_uuid
migrate_store-uuid true g s =
    let carried = λ (k : String). get-put k key_uuid (get key_uuid s.legacy) s.state in
    elim (Bool-cases (is_full_text (get key_uuid s.state))) [
      | inl e ↦ simp e (refl, (λ k h. refl), refl, refl)
      | inr e ↦ elim (Bool-cases (is_full_text (get key_uuid s.legacy))) [
        | inr n ↦ simp (e, n) (refl, (λ k h. refl), refl, refl)
        | inl n ↦ simp (e, n) (carried key_uuid, (λ k h. ground (arith, carried k, h)), refl, refl)
      ]
    ]
migrate_store-uuid false g s =
    let carried = λ (k : String). get-put k key_uuid (get key_uuid s.legacy) s.state in
    elim (Bool-cases (is_full_text (get key_uuid s.state))) [
      | inl e ↦ simp e (refl, (λ k h. refl), refl, refl)
      | inr e ↦ elim (Bool-cases (is_full_text (get key_uuid s.legacy))) [
        | inr n ↦ simp (e, n) (refl, (λ k h. refl), refl, refl)
        | inl n ↦ simp (e, n) (carried key_uuid, (λ k h. ground (arith, carried k, h)), refl, refl)
      ]
    ]
