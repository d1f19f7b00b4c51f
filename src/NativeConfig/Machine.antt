-- ===== src/NativeConfig/Machine.antt =====
-- syncNativeConfig, flushNativeConfig and markJsCheckCompleted (src/clientNativeConfig.ts) as steps:
-- a call of setOptions, what native does with the write in flight, the code behind its promise, and
-- the host's own writes.
use react_native_pushy.Common.{String, Bool, true, false, ◌||◌, not, ◌==◌, List, [], ◌∷◌}
use react_native_pushy.Common.{Option, none, some, if◌then◌else◌}
use react_native_pushy.Json.{Value}
use react_native_pushy.NativeConfig.{Options, Host, get_native_config_json}

-- The write in flight: native has not answered, native has stored the text, native has rejected it,
-- or the promise has settled and its `finally` has yet to run.
pub data Flight : Type 0 where
  idle : Flight
  writing : String → Flight
  written : String → Flight
  refused : Flight
  settled : Flight

-- The fields of NativeConfigSync, the options, and what native storage holds.
pub record World : Type 0 where
  pub options : Options
  pub synced : Option String
  pub pending : Option String
  pub flight : Flight
  pub stored : Option String

abbrev pub world : Options → Option String → Option String → Flight → Option String → World
world o synced pending f stored = record {
  options = o;
  synced = synced;
  pending = pending;
  flight = f;
  stored = stored;
}

abbrev pub is_idle : Flight → Bool
is_idle idle = true
is_idle _ = false

abbrev pub same_text : Option String → String → Bool
same_text none t = false
same_text (some s) t = s == t

-- `pending` is taken out first: what is falsy or already synced is dropped.
abbrev pub start_write : Option String → World → World
start_write none w = w
start_write (some config) w =
    if (config == "") || same_text w.synced config then w else record w { flight = writing config }

unfoldable pub flush_native_config : Host → World → World
flush_native_config host w =
    if w.options.is_native_source
    then record w { pending = none; synced = none }
    else if not host.has_sync_method || not (is_idle w.flight)
    then w
    else start_write w.pending (record w { pending = none })

abbrev pub usable : Option String → Bool
usable none = false
usable (some config) = not (config == "")

unfoldable pub sync_native_config : (Value → String) → Host → World → World
unfolding get_native_config_json flush_native_config
sync_native_config stringify host w =
    let config = get_native_config_json stringify host w.options in
    if w.options.is_native_source
    then record w { pending = none; synced = none }
    else if not host.has_sync_method
    then w
    else if usable config
    then flush_native_config host (record w { pending = config })
    else w

-- `setOptions`, as far as it concerns the configuration: the options are changed in place.
unfoldable pub set_options : (Value → String) → Host → Options → World → World
unfolding sync_native_config
set_options stringify host o w = sync_native_config stringify host (record w { options = o })

-- Native stores the text that is being written. A write that it rejects leaves storage as it was.
abbrev native_stores : Flight → World → World
native_stores (writing t) w = record w { flight = written t; stored = some t }
native_stores _ w = w

abbrev native_refuses : Flight → World → World
native_refuses (writing t) w = record w { flight = refused }
native_refuses _ w = w

-- The code behind the promise: `then`, or `catch`, which logs.
abbrev observe : Flight → World → World
observe (written t) w =
    if w.options.is_native_source
    then record w { flight = settled }
    else record w { flight = settled; synced = some t }
observe refused w = record w { flight = settled }
observe _ w = w

-- The `finally` of the promise.
abbrev finish : Host → Flight → World → World
finish host settled w = flush_native_config host (record w { flight = idle })
finish host _ w = w

-- A host that owns the configuration writes storage itself.
abbrev host_write : String → World → World
host_write t w = if w.options.is_native_source then record w { stored = some t } else w

pub data Event : Type 0 where
  sets_options : Options → Event
  stores refuses observes finishes : Event
  host_writes : String → Event

unfoldable pub step : (Value → String) → Host → Event → World → World
unfolding set_options flush_native_config
step stringify host (sets_options o) w = set_options stringify host o w
step stringify host stores w = native_stores w.flight w
step stringify host refuses w = native_refuses w.flight w
step stringify host observes w = observe w.flight w
step stringify host finishes w = finish host w.flight w
step stringify host (host_writes t) w = host_write t w

unfoldable pub run : (Value → String) → Host → List Event → World → World
unfolding step
run stringify host [] w = w
run stringify host (e ∷ es) w = run stringify host es (step stringify host e w)

unfoldable pub init : Options → Option String → World
init o stored = record {
  options = o;
  synced = none;
  pending = none;
  flight = idle;
  stored = stored;
}

-- `markJsCheckCompleted`: the configuration that native is told of, none where it is told nothing.
-- When native accepts, `jsCheckCompletedConfigJson` becomes that text.
unfoldable pub mark_js_check_completed : Bool → Option String → Option String → Option String
mark_js_check_completed has_method completed none = none
mark_js_check_completed has_method completed (some config) =
    if not has_method || (config == "") || same_text completed config then none else some config
