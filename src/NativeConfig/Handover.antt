-- ===== src/NativeConfig/Handover.antt =====
-- A change of the owner of native storage (src/clientNativeConfig.ts) while a write is in flight.
use react_native_pushy.Common.{String, true, false, ◌≡◌, refl, ap, ◌∙◌, arith, ◌==◌, eq_refl}
use react_native_pushy.Common.{Option, none, some, List, [], ◌∷◌}
use react_native_pushy.Json.{Value}
use react_native_pushy.NativeConfig.{Options, Host, get_native_config_json}
use react_native_pushy.NativeConfig.Machine.{
  Flight, world, idle, writing, written, settled, World, Event, sets_options, stores, observes,
  finishes, host_writes, step, run, init, set_options, sync_native_config, flush_native_config,
}

abbrev pub handover : Options → Options → String → List Event
handover js native theirs =
    sets_options js
    ∷ sets_options native
    ∷ stores
    ∷ host_writes theirs
    ∷ sets_options js
    ∷ observes
    ∷ finishes
    ∷ []

module _ (stringify : Value → String) (host : Host) (js : Options) (config : String)
    (j : js.is_native_source ≡ false) (m : host.has_sync_method ≡ true)
    (c : get_native_config_json stringify host js ≡ some config) (e : (config == "") ≡ false) where
  sets-idle :
      (was : Options) (stored : Option String)
      → step stringify host (sets_options js) (world was none none idle stored)
        ≡ (world js none none (writing config) stored)
  unfolding step set_options sync_native_config flush_native_config
  sets-idle was stored = ground (arith, c, e)

  sets-busy :
      (was : Options) (t : String) (stored : Option String)
      → step stringify host (sets_options js) (world was none none (written t) stored)
        ≡ (world js none (some config) (written t) stored)
  unfolding step set_options sync_native_config flush_native_config
  sets-busy was t stored = ground (arith, c, e)

  flush-duplicate :
      (stored : Option String)
      → step stringify host finishes (world js (some config) (some config) settled stored)
        ≡ (world js (some config) none idle stored)
  unfolding step flush_native_config
  flush-duplicate stored = ground (arith, eq_refl config)

sets-native :
    (stringify : Value → String) (host : Host) (native was : Options) (pending : Option String)
    (f : Flight) (stored : Option String)
    → native.is_native_source ≡ true
    → step stringify host (sets_options native) (world was none pending f stored)
      ≡ (world native none none f stored)
unfolding step set_options sync_native_config
sets-native stringify host native was pending f stored n = ground arith

run-cons :
    (stringify : Value → String) (host : Host) (e : Event) (es : List Event) (w w' : World)
    {x : World}
    → step stringify host e w ≡ w'
    → run stringify host es w' ≡ x
    → run stringify host (e ∷ es) w ≡ x
unfolding run
run-cons stringify host e es w w' one rest = ap (run stringify host es) one ∙ rest

-- A handover that the promise of a write does not see: JavaScript writes its configuration, hands
-- storage over to the host, the host stores its own text, and JavaScript takes storage back with the
-- configuration of before, all before the callback of the write runs. The callback then remembers
-- the write as synced, so the configuration asked for last is dropped as a duplicate: the queue ends
-- idle with nothing pending, and native storage keeps the host's text.
pub handover-stored :
    (stringify : Value → String) (host : Host) (js native : Options) (config theirs : String)
    (stored : Option String)
    → js.is_native_source ≡ false
    → native.is_native_source ≡ true
    → host.has_sync_method ≡ true
    → get_native_config_json stringify host js ≡ some config
    → (config == "") ≡ false
    → let w = run stringify host (handover js native theirs) (init js stored) in
      (w.flight ≡ idle) × (w.pending ≡ none) × (w.synced ≡ some config) × (w.stored ≡ some theirs)
unfolding init
handover-stored stringify host js native config theirs stored j n m c e =
    let sync = sets-busy stringify host js config j m c e native config (some theirs) in
    let last = flush-duplicate stringify host js config j m c e (some theirs) in
    let ends : run stringify host (handover js native theirs) (init js stored)
        ≡ world js (some config) none idle (some theirs) =
      run-cons stringify host (sets_options js) _ _ _
        (sets-idle stringify host js config j m c e js stored)
        (run-cons stringify host (sets_options native) _ _ _
          (sets-native stringify host native js none (writing config) stored n)
          (run-cons stringify host stores _ _
            (world native none none (written config) (some config)) (unfold step in refl)
            (run-cons stringify host (host_writes theirs) _ _
              (world native none none (written config) (some theirs)) (unfold step in rw n)
              (run-cons stringify host (sets_options js) _ _ _ sync (
                run-cons stringify host observes _ _
                  (world js (some config) (some config) settled (some theirs)) (unfold step in rw j)
                  (run-cons stringify host finishes _ _ _ last (unfold run in refl))))))) in
    (
      ap (λ (w : World). w.flight) ends,
      ap (λ (w : World). w.pending) ends,
      ap (λ (w : World). w.synced) ends,
      ap (λ (w : World). w.stored) ends,
    )
