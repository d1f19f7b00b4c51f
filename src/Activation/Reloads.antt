-- ===== src/Activation/Reloads.antt =====
-- The reloads that the steps of src/clientActivation.ts ask for.
use react_native_pushy.Common.Pool.{of_bool}
use react_native_pushy.Common.{ℕ, ◌+◌, Bool, true, false, ◌&&◌, not}
use react_native_pushy.Common.{List, [], ◌∷◌, ◌++◌, if◌then◌else◌, ◌≡◌, refl, arith}
use react_native_pushy.Events.{EventType}
use react_native_pushy.Activation.Machine.{World, Action, native_reload, report_if}
use react_native_pushy.Activation.Run.{Event, switch_version}

abbrev pub is_reload : Action → Bool
is_reload (native_reload hash) = true
is_reload _ = false

unfoldable pub reloads : List Action → ℕ
reloads [] = 0
reloads (a ∷ rest) = of_bool (is_reload a) + reloads rest

abbrev pub is_switch : Event → Bool
is_switch (switch_version hash) = true
is_switch _ = false

unfoldable pub no_switch : List Event → Bool
no_switch [] = true
no_switch (e ∷ es) = not (is_switch e) && no_switch es

-- A switch that lost the flag: no switch is in progress, and as many reloads were asked for as
-- before.
abbrev pub IsQuiet : ℕ → World → Type 0
IsQuiet n w = (w.state.applying_update ≡ false) × (reloads w.actions ≡ n)

pub reloads-append : (xs ys : List Action) → reloads (xs ++ ys) ≡ reloads xs + reloads ys
unfolding reloads
reloads-append [] ys = ground arith
reloads-append (x ∷ xs) ys = ground (arith, reloads-append xs ys)

pub reloads-append_none :
    (xs more : List Action) (n : ℕ) → reloads more ≡ 0 → reloads xs ≡ n → reloads (xs ++ more) ≡ n
reloads-append_none xs more n none_more count = ground (arith, reloads-append xs more)

pub reloads-report_if : (b : Bool) (event : EventType) → reloads (report_if b event) ≡ 0
unfolding reloads
reloads-report_if true event = refl
reloads-report_if false event = refl

pub IsQuiet-if :
    (b : Bool) (n : ℕ) (v w : World) → IsQuiet n v → IsQuiet n w → IsQuiet n (if b then v else w)
IsQuiet-if true n v w h k = h
IsQuiet-if false n v w h k = k
