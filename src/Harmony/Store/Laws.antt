-- ===== src/Harmony/Store/Laws.antt =====
-- What the store (harmony/pushy/src/main/ets/StoreSchema.ts) reads back after a write.
use react_native_pushy.Common.{
  String, Bool, true, false, ◌==◌, if◌then◌else◌, ◌≡◌, refl, arith, eq_iff, Bool-cases, inl, inr,
  List, [], ◌∷◌, contains,
}
use react_native_pushy.Common.Int.{ℤ}
use react_native_pushy.Json.{undef, str, Fields, get}
use react_native_pushy.Json.Laws.{get-put, get-del}
use react_native_pushy.Harmony.StateCore.{State}
use react_native_pushy.Harmony.Store.{
  text_of, read, read_boolean, read_state, write_string, write_boolean, write_state, boolean_true,
  boolean_false, key_package_version, key_build_time, key_current_version, key_last_version,
  key_first_time, key_first_time_ok, key_rolled_back_version,
}

pub get-write_string :
    (j k v : String) (store : Fields)
    → get j (write_string k v store)
      ≡ (if k == j then (if v == "" then undef else str v) else get j store)
unfolding write_string
get-write_string j k v store = ground (arith, get-put j k (str v) store, get-del j k store)

pub get-write_boolean :
    (j k : String) (b : Bool) (store : Fields)
    → get j (write_boolean k b store)
      ≡ (if k == j then str (if b then boolean_true else boolean_false) else get j store)
unfolding write_boolean
get-write_boolean j k b store = get-put j k (str (if b then boolean_true else boolean_false)) store

abbrev pub state_keys : List String
state_keys =
    key_package_version ∷ key_build_time ∷ key_current_version ∷ key_last_version ∷ key_first_time
    ∷ key_first_time_ok ∷ key_rolled_back_version ∷ []

module _ (show : ℤ → String) where
  read-write_string :
      (j k v : String) (store : Fields)
      → read show j (write_string k v store) ≡ (if k == j then v else read show j store)
  unfolding read text_of
  read-write_string j k v store = ground (arith, get-write_string j k v store, eq_iff v "")

  read-write_boolean :
      (j k : String) (b : Bool) (store : Fields)
      → read show j (write_boolean k b store)
        ≡ (if k == j then (if b then boolean_true else boolean_false) else read show j store)
  unfolding read text_of
  read-write_boolean j k b store = ground (arith, get-write_boolean j k b store)

  read_boolean-write_string :
      (j : String) (fallback : Bool) (k v : String) (store : Fields)
      → (k == j) ≡ false
      → read_boolean show j fallback (write_string k v store) ≡ read_boolean show j fallback store
  unfolding read_boolean
  read_boolean-write_string j fallback k v store h = rw (read-write_string j k v store, h) refl

  read_boolean-write_boolean :
      (j : String) (fallback : Bool) (k : String) (b : Bool) (store : Fields)
      → read_boolean show j fallback (write_boolean k b store)
        ≡ (if k == j then b else read_boolean show j fallback store)
  unfolding read_boolean
  read_boolean-write_boolean j fallback k b store = elim (Bool-cases (k == j)) [
    | inl e ↦ rw (read-write_boolean j k b store, e) (flag b)
    | inr e ↦ rw (read-write_boolean j k b store, e) refl
  ]
    where
      flag :
          (b : Bool)
          → (if (if b then boolean_true else boolean_false) == boolean_true
              then true
              else if (if b then boolean_true else boolean_false) == boolean_false
              then false
              else fallback)
            ≡ b
      flag true = refl
      flag false = refl

  -- A state that is written is read back, field by field, whatever the store held before, and no other
  -- key of the store changes.
  pub read_state-write_state :
      (s : State) (store : Fields)
      → (read_state show (write_state s store) ≡ s)
        × ((k : String) → contains k state_keys ≡ false → get k (write_state s store) ≡ get k store)
  unfolding write_state read_state
  read_state-write_state s store = (
    simp
        (
          read-write_string, read-write_boolean, read_boolean-write_boolean,
          read_boolean-write_string,
        )
        refl,
    λ k h. simp (get-write_string, get-write_boolean) (ground (arith, h)),
  )

  -- The value under each key of the state decides the state.
  pub read_state-cong :
      (a b : Fields)
      → ((k : String) → contains k state_keys ≡ true → get k a ≡ get k b)
      → read_state show a ≡ read_state show b
  unfolding read_state read_boolean read
  read_state-cong a b same = simp (
    same key_package_version refl,
    same key_build_time refl,
    same key_current_version refl,
    same key_last_version refl,
    same key_first_time refl,
    same key_first_time_ok refl,
    same key_rolled_back_version refl,
  )
