-- ===== src/NativeConfig/Latest.antt =====
-- What the configuration queue (src/clientNativeConfig.ts) promises, as a register that is told the same
-- events, and when its state keeps the promise.
use react_native_pushy.Common.{String, Bool, true, false, ◌≡◌, ◌⊎◌, not, ◌==◌}
use react_native_pushy.Common.{Option, none, some, List, [], ◌∷◌, if◌then◌else◌}
use react_native_pushy.Json.{Value}
use react_native_pushy.NativeConfig.{Host, get_native_config_json}
use react_native_pushy.NativeConfig.Machine.{
  Flight, idle, writing, written, refused, settled, World, Event, sets_options, stores, refuses,
  host_writes, step, usable,
}

-- The configuration last asked for, none while the host owns storage, and whether native rejected
-- the latest write that it answered.
pub record Register : Type 0 where
  pub want : Option String
  pub lost : Bool

abbrev pub is_writing : Flight → Bool
is_writing (writing t) = true
is_writing _ = false

module _ (stringify : Value → String) (host : Host) where
  -- What one event means for the register.
  unfoldable pub track : Flight → Event → Register → Register
  track flight (sets_options o) r =
      let config = get_native_config_json stringify host o in
      if o.is_native_source
      then record r { want = none }
      else if usable config
      then record r { want = config }
      else r
  track flight stores r = if is_writing flight then record r { lost = false } else r
  track flight refuses r = if is_writing flight then record r { lost = true } else r
  track flight _ r = r

  unfoldable pub track_all : List Event → World → Register → Register
  unfolding track
  track_all [] w r = r
  track_all (e ∷ es) w r = track_all es (step stringify host e w) (track w.flight e r)

-- The host writes only while no write of JavaScript is in flight.
abbrev pub IsOrderly : Flight → Event → Type 0
IsOrderly flight (host_writes t) = flight ≡ idle
IsOrderly flight _ = Unit

module _ (stringify : Value → String) (host : Host) where
  abbrev pub AreOrderly : List Event → World → Type 0
  AreOrderly [] w = Unit
  AreOrderly (e ∷ es) w = IsOrderly w.flight e × AreOrderly es (step stringify host e w)

-- Where the configuration asked for is, by what is in flight.
abbrev pub Serves : Flight → World → Register → Type 0
Serves idle w r =
    (w.pending ≡ none)
    × ((r.want ≡ none) ⊎ ((r.lost ≡ true) ⊎ (w.stored ≡ r.want)))
    × ((w.synced ≡ none) ⊎ (w.synced ≡ w.stored))
Serves (writing t) w r =
    ((r.want ≡ none) ⊎ ((w.pending ≡ r.want) ⊎ (r.want ≡ some t)))
    × ((w.synced ≡ none) ⊎ (w.synced ≡ w.stored))
Serves (written t) w r =
    ((r.want ≡ none) ⊎ ((w.pending ≡ r.want) ⊎ (r.want ≡ some t))) × (w.stored ≡ some t)
Serves refused w r =
    ((r.want ≡ none) ⊎ ((w.pending ≡ r.want) ⊎ (r.lost ≡ true)))
    × ((w.synced ≡ none) ⊎ (w.synced ≡ w.stored))
Serves settled w r =
    ((r.want ≡ none) ⊎ ((w.pending ≡ r.want) ⊎ ((r.lost ≡ true) ⊎ (w.stored ≡ r.want))))
    × ((w.synced ≡ none) ⊎ (w.synced ≡ w.stored))

abbrev pub is_text : Option String → Bool
is_text none = true
is_text (some t) = not (t == "")

pub record Implements (w : World) (r : Register) : Type 0 where
  pub serves : Serves w.flight w r
  pub newest : (w.pending ≡ none) ⊎ (w.pending ≡ r.want)
  pub text : is_text w.pending ≡ true
  pub ceded :
      w.options.is_native_source ≡ true → (w.pending ≡ none) × (w.synced ≡ none) × (r.want ≡ none)
