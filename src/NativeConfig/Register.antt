-- ===== src/NativeConfig/Register.antt =====
-- The queue of src/clientNativeConfig.ts against a register that only holds the configuration that
-- was last asked for.
use react_native_pushy.Common.{
  String, Bool, true, false, ◌≡◌, refl, subst, ◌⊎◌, inl, inr, arith, eq_iff, eq_refl,
}
use react_native_pushy.Common.{Option, none, some, List, [], ◌∷◌, Bool-cases, Option-cases}
use react_native_pushy.Json.{Value}
use react_native_pushy.NativeConfig.{Options, Host, get_native_config_json}
use react_native_pushy.NativeConfig.Machine.{
  Flight, world, idle, writing, written, refused, settled, World, Event, sets_options, stores,
  refuses, observes, finishes, step, run, init, set_options, sync_native_config,
  flush_native_config, start_write,
}
use react_native_pushy.NativeConfig.Latest.{
  Register, track, track_all, IsOrderly, AreOrderly, Serves, is_text, Implements,
}

-- The state that `finally` and setOptions hand to flushNativeConfig.
abbrev Ready : World → Register → Type 0
Ready w r =
    ((r.want ≡ none) ⊎ ((w.pending ≡ r.want) ⊎ ((r.lost ≡ true) ⊎ (w.stored ≡ r.want))))
    × ((w.synced ≡ none) ⊎ (w.synced ≡ w.stored))
    × ((w.pending ≡ none) ⊎ (w.pending ≡ r.want))
    × (is_text w.pending ≡ true)

start_write-Implements :
    (o : Options) (synced pending stored : Option String) (r : Register)
    → o.is_native_source ≡ false
    → Ready (world o synced pending idle stored) r
    → Implements (start_write pending (world o synced none idle stored)) r
start_write-Implements o synced none stored r e v = ground arith
start_write-Implements o none (some t) stored r e v = ground arith
start_write-Implements o (some s) (some t) stored r e v = ground (arith, eq_iff s t)

flush-Implements :
    (host : Host) (o : Options) (synced pending stored : Option String) (r : Register)
    → host.has_sync_method ≡ true
    → (o.is_native_source ≡ true → r.want ≡ none)
    → Ready (world o synced pending idle stored) r
    → Implements (flush_native_config host (world o synced pending idle stored)) r
unfolding flush_native_config
flush-Implements host o synced pending stored r m n v = elim (Bool-cases o.is_native_source) [
  | inl e ↦ ground (arith, n e)
  | inr e ↦ simp (e, m) (start_write-Implements o synced pending stored r e v)
]

sync-Implements :
    (stringify : Value → String) (host : Host) (o : Options) (synced pending : Option String)
    (f : Flight) (stored : Option String) (r : Register)
    → host.has_sync_method ≡ true
    → (was : Options) → Implements (world was synced pending f stored) r
    → Implements
        (set_options stringify host o (world was synced pending f stored))
        (track stringify host f (sets_options o) r)
unfolding track set_options sync_native_config flush_native_config
sync-Implements stringify host o synced pending idle stored r m was v =
    let config = get_native_config_json stringify host o in
    elim (Option-cases config) [
      | inl e ↦ ground (arith, e)
      | inr (t, e) ↦ ground (
        arith,
        e,
        eq_iff t "",
        start_write-Implements o synced (some t) stored (record { want = some t; lost = r.lost }),
      )
    ]
sync-Implements stringify host o synced pending (writing t) stored r m was v =
    ground (arith, eq_refl t)
sync-Implements stringify host o synced pending (written t) stored r m was v =
    ground (arith, eq_refl t)
sync-Implements stringify host o synced pending refused stored r m was v = ground arith
sync-Implements stringify host o synced pending settled stored r m was v = ground arith

step-by-Implements :
    (stringify : Value → String) (host : Host) (e : Event) (o : Options)
    (synced pending : Option String) (f : Flight) (stored : Option String) (r : Register)
    → host.has_sync_method ≡ true
    → IsOrderly f e
    → Implements (world o synced pending f stored) r
    → Implements
        (step stringify host e (world o synced pending f stored))
        (track stringify host f e r)
unfolding step track
step-by-Implements stringify host (sets_options o') o synced pending f stored r m q v =
    sync-Implements stringify host o' synced pending f stored r m o v
step-by-Implements stringify host finishes o synced pending settled stored r m q v =
    flush-Implements host o synced pending stored r m (λ e. (v.ceded e).2)
      (v.serves.0, v.serves.1, v.newest, v.text)
step-by-Implements stringify host e o synced pending f stored r m q v = ground arith

step-Implements :
    (stringify : Value → String) (host : Host) (e : Event) (w : World) (r : Register)
    → host.has_sync_method ≡ true
    → IsOrderly w.flight e
    → Implements w r
    → Implements (step stringify host e w) (track stringify host w.flight e r)
step-Implements stringify host e w r =
    step-by-Implements stringify host e w.options w.synced w.pending w.flight w.stored r

module _ (stringify : Value → String) (host : Host) (m : host.has_sync_method ≡ true) where
  -- Every run of the queue implements the register, while the host writes only between two writes.
  pub run-Implements :
      (es : List Event) (w : World) (r : Register)
      → AreOrderly stringify host es w
      → Implements w r
      → Implements (run stringify host es w) (track_all stringify host es w r)
  unfolding run track_all
  run-Implements [] w r o v = v
  run-Implements (e ∷ es) w r o v =
      run-Implements es (step stringify host e w) (track stringify host w.flight e r) o.1
        (step-Implements stringify host e w r m o.0 v)

abbrev pub no_request : Register
no_request = record { want = none; lost = false }

init-Implements : (o : Options) (stored : Option String) → Implements (init o stored) no_request
unfolding init
init-Implements o stored = ground arith

idle-stored :
    (w : World) (r : Register) (config : String)
    → Implements w r
    → w.flight ≡ idle
    → r.lost ≡ false
    → r.want ≡ some config
    → w.stored ≡ some config
idle-stored w r config v i l e = ground (arith, subst (λ f. Serves f w r) i v.serves)

module _ (stringify : Value → String) (host : Host) (m : host.has_sync_method ≡ true) where
  -- On a native with the sync method and over every sequence of setOptions calls, native answers,
  -- promise callbacks and writes of the host, the host's only while no write of JavaScript is in
  -- flight: when the queue is idle, the latest write was not rejected and the configuration last
  -- asked for is `config`, native storage holds `config`, whatever was coalesced or skipped.
  pub run-idle-stored :
      (o : Options) (stored : Option String) (es : List Event) (config : String)
      → AreOrderly stringify host es (init o stored)
      → (run stringify host es (init o stored)).flight ≡ idle
      → (track_all stringify host es (init o stored) no_request).lost ≡ false
      → (track_all stringify host es (init o stored) no_request).want ≡ some config
      → (run stringify host es (init o stored)).stored ≡ some config
  run-idle-stored o stored es config q =
      idle-stored (run stringify host es (init o stored))
        (track_all stringify host es (init o stored) no_request) config
        (run-Implements stringify host m es (init o stored) no_request q (init-Implements o stored))

-- Native stores the write in flight, or rejects it.
abbrev pub answer : Bool → Event
answer true = stores
answer false = refuses

abbrev pub answers : Bool → Bool → List Event
answers first second = answer first ∷ observes ∷ finishes ∷ answer second ∷ observes ∷ finishes ∷ []

module _ (stringify : Value → String) (host : Host) (o : Options)
    (synced pending stored : Option String) where
  abbrev after_answers : Bool → Bool → Flight → Flight
  after_answers first second f =
      (run stringify host (answers first second) (world o synced pending f stored)).flight

  answers-idle : (first second : Bool) (f : Flight) → after_answers first second f ≡ idle
  unfolding run step flush_native_config
  answers-idle true true idle = refl
  answers-idle true false idle = refl
  answers-idle false true idle = refl
  answers-idle false false idle = refl
  answers-idle true true (writing t) = ground arith
  answers-idle true false (writing t) = ground arith
  answers-idle false true (writing t) = ground arith
  answers-idle false false (writing t) = ground arith
  answers-idle true true (written t) = ground arith
  answers-idle true false (written t) = ground arith
  answers-idle false true (written t) = ground arith
  answers-idle false false (written t) = ground arith
  answers-idle true true refused = ground arith
  answers-idle true false refused = ground arith
  answers-idle false true refused = ground arith
  answers-idle false false refused = ground arith
  answers-idle true true settled = ground arith
  answers-idle true false settled = ground arith
  answers-idle false true settled = ground arith
  answers-idle false false settled = ground arith

-- From every state, two rounds of answers of native, each of which stores or rejects the write in flight,
-- and of the callbacks of its promise leave the queue idle: no write is started for ever, not even on
-- a native that rejects every one.
pub run-answers-idle :
    (stringify : Value → String) (host : Host) (w : World) (first second : Bool)
    → (run stringify host (answers first second) w).flight ≡ idle
run-answers-idle stringify host w first second =
    answers-idle stringify host w.options w.synced w.pending w.stored first second w.flight
