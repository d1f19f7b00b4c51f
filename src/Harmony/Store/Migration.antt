-- ===== src/Harmony/Store/Migration.antt =====
-- The one-time move from the legacy store into the state store (flattenStore, migrateStore and
-- carryUuid of harmony/pushy/src/main/ets/StoreSchema.ts).
pub mod Laws
use react_native_pushy.Common.{
  String, Bool, true, false, ◌==◌, if◌then◌else◌, Option, none, some, List, [], ◌∷◌,
}
use react_native_pushy.Common.Int.{ℤ}
use react_native_pushy.Json.{Value, bool, num, str, Fields, no_fields, entry, get, put, del}
use react_native_pushy.Harmony.Store.{boolean_true, boolean_false, key_uuid}

abbrev flat_value : (ℤ → String) → Value → String
flat_value show (bool b) = if b then boolean_true else boolean_false
flat_value show (str s) = s
flat_value show (num n) = show n
flat_value show _ = ""

-- Key, value, key, value, and so on, every value as text.
unfoldable pub flatten_store : (ℤ → String) → Fields → List String
flatten_store show no_fields = []
flatten_store show (entry k v fs) = k ∷ flat_value show v ∷ flatten_store show fs

pub record MigrationPlan : Type 0 where
  pub migrated : Bool
  pub puts : List (String × String)
  pub removes : List String

-- Both stores, in memory and on disk.
pub record Stores : Type 0 where
  pub state : Fields
  pub state_disk : Fields
  pub legacy : Fields
  pub legacy_disk : Fields

pub data MigrationResult : Type 0 where
  current migrated retry fallback : MigrationResult

-- A flush that fails leaves the disk as it was.
abbrev pub flush_state : Bool → Stores → Stores
flush_state true s = record s { state_disk = s.state }
flush_state false s = s

abbrev pub flush_legacy : Bool → Stores → Stores
flush_legacy true s = record s { legacy_disk = s.legacy }
flush_legacy false s = s

unfoldable pub put_all : List (String × String) → Fields → Fields
put_all [] fs = fs
put_all ((k, v) ∷ puts) fs = put_all puts (put k (str v) fs)

unfoldable pub remove_all : List String → Fields → Fields
remove_all [] fs = fs
remove_all (k ∷ ks) fs = remove_all ks (del k fs)

abbrev pub is_full_text : Value → Bool
is_full_text (str s) = if s == "" then false else true
is_full_text _ = false

-- The migration could not run: only the uuid is carried over.
unfoldable pub carry_uuid : Bool → Stores → Stores
carry_uuid flushed s =
    if is_full_text (get key_uuid s.state)
    then s
    else if is_full_text (get key_uuid s.legacy)
    then flush_state flushed (record s { state = put key_uuid (get key_uuid s.legacy) s.state })
    else s

abbrev pub done : MigrationPlan → MigrationResult
done plan = if plan.migrated then migrated else current

-- Behind the flush of the state store.
abbrev pub remove_legacy : List String → Bool → Stores → Stores
remove_legacy [] flushed s = s
remove_legacy (k ∷ ks) flushed s =
    flush_legacy flushed (record s { legacy = remove_all (k ∷ ks) s.legacy })

abbrev pub is_empty : List (String × String) → Bool
is_empty [] = true
is_empty (p ∷ ps) = false

-- The plan is applied: nothing is written for a plan without puts, and the legacy keys go only after
-- the state store was flushed.
unfoldable pub apply_plan : MigrationPlan → Bool → Bool → Stores → Stores × MigrationResult
unfolding put_all remove_all
apply_plan plan state_flushed legacy_flushed s =
    let written = record s { state = put_all plan.puts s.state } in
    if is_empty plan.puts
    then (remove_legacy plan.removes legacy_flushed written, done plan)
    else if state_flushed
    then (remove_legacy plan.removes legacy_flushed (flush_state true written), done plan)
    else (written, retry)

-- `migrateStore`, with the plan of the shared core, none where planning fails, and whether each flush
-- succeeds.
unfoldable pub migrate_store :
    Option MigrationPlan → Bool → Bool → Stores → Stores × MigrationResult
unfolding carry_uuid apply_plan
migrate_store none state_flushed legacy_flushed s = (carry_uuid state_flushed s, fallback)
migrate_store (some plan) state_flushed legacy_flushed s =
    apply_plan plan state_flushed legacy_flushed s
