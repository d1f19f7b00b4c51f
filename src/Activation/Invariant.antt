-- ===== src/Activation/Invariant.antt =====
-- The owners of the switch in progress (src/clientActivation.ts): counts over what waits.
use react_native_pushy.Common.Pool.{count_if, count_if-without_nth, nth_of, of_bool, without_nth}
use react_native_pushy.Common.{ℕ, zero, suc, ◌+◌, Bool, true, false, ◌&&◌, ◌||◌, beq, leb}
use react_native_pushy.Common.{Option, none, some, List, [], ◌∷◌, ◌≡◌, refl, arith}
use react_native_pushy.Activation.State.{
  State, owns_applying_update, clear_reload_watchdog, finish_applying_update,
}
use react_native_pushy.Activation.Machine.{
  Waiting, switch_hook, switch_reload, later_native, restart_hook, restart_native, reset_native,
  mark_native, Timer, World, finish,
}

-- The generation that a waiting switch captured.
abbrev pub has_generation : ℕ → Waiting → Bool
has_generation g (switch_hook h hash) = beq h g
has_generation g (switch_reload h hash) = beq h g
has_generation g _ = false

abbrev pub is_below : ℕ → Waiting → Bool
is_below g (switch_hook h hash) = leb h g
is_below g (switch_reload h hash) = leb h g
is_below g _ = true

abbrev pub is_mark : Waiting → Bool
is_mark mark_native = true
is_mark _ = false

unfoldable pub all_below : ℕ → List Waiting → Bool
all_below g [] = true
all_below g (x ∷ xs) = is_below g x && all_below g xs

unfoldable pub has_timer : ℕ → ℕ → List Timer → Bool
has_timer t g [] = false
has_timer t g (timer ∷ timers) = (beq t timer.id && beq g timer.generation) || has_timer t g timers

abbrev pub is_timed : Option ℕ → ℕ → List Timer → Bool
is_timed none g timers = true
is_timed (some t) g timers = has_timer t g timers

abbrev pub armed : Option ℕ → ℕ
armed none = 0
armed (some t) = 1

-- The switch in progress has exactly one owner: a waiting switch of the current generation, or the
-- armed watchdog, whose timer was set for this generation; without a switch in progress there is
-- none. No waiting switch is of a later generation, and one native markSuccess is in flight exactly
-- while the promise is shared.
abbrev pub Inv : State → List Waiting → List Timer → Type 0
Inv s waiting timers =
    (all_below s.generation waiting ≡ true)
    × (count_if (has_generation s.generation) waiting + armed s.watchdog
        ≡ of_bool s.applying_update)
    × (is_timed s.watchdog s.generation timers ≡ true)
    × (count_if is_mark waiting ≡ of_bool s.is_marking)

abbrev pub IsOwned : World → Type 0
IsOwned w = Inv w.state w.waiting w.timers

pub all_below-suc :
    (g : ℕ) (xs : List Waiting) → all_below g xs ≡ true → all_below (g + 1) xs ≡ true
unfolding all_below
all_below-suc g [] h = refl
all_below-suc g (switch_hook a b ∷ xs) h = ground (arith, all_below-suc g xs)
all_below-suc g (switch_reload a b ∷ xs) h = ground (arith, all_below-suc g xs)
all_below-suc g (later_native ∷ xs) h = all_below-suc g xs h
all_below-suc g (restart_hook a ∷ xs) h = all_below-suc g xs h
all_below-suc g (restart_native a ∷ xs) h = all_below-suc g xs h
all_below-suc g (reset_native a ∷ xs) h = all_below-suc g xs h
all_below-suc g (mark_native ∷ xs) h = all_below-suc g xs h

pub count_if-suc :
    (g : ℕ) (xs : List Waiting) → all_below g xs ≡ true → count_if (has_generation (g + 1)) xs ≡ 0
unfolding all_below count_if
count_if-suc g [] h = refl
count_if-suc g (switch_hook a b ∷ xs) h = ground (arith, count_if-suc g xs)
count_if-suc g (switch_reload a b ∷ xs) h = ground (arith, count_if-suc g xs)
count_if-suc g (later_native ∷ xs) h = ground (arith, count_if-suc g xs)
count_if-suc g (restart_hook a ∷ xs) h = ground (arith, count_if-suc g xs)
count_if-suc g (restart_native a ∷ xs) h = ground (arith, count_if-suc g xs)
count_if-suc g (reset_native a ∷ xs) h = ground (arith, count_if-suc g xs)
count_if-suc g (mark_native ∷ xs) h = ground (arith, count_if-suc g xs)

pub all_below-without_nth :
    (g : ℕ) (x : Waiting) (k : ℕ) (xs : List Waiting)
    → nth_of k xs ≡ some x
    → all_below g xs ≡ (is_below g x && all_below g (without_nth k xs))
unfolding all_below nth_of without_nth
all_below-without_nth g x k [] h = ground arith
all_below-without_nth g x zero (y ∷ xs) h = ground arith
all_below-without_nth g x (suc k) (y ∷ xs) h = ground (arith, all_below-without_nth g x k xs h)

-- What is awaited may be taken to the front.
pub IsOwned-front :
    (w : World) (x : Waiting) (k : ℕ)
    → nth_of k w.waiting ≡ some x
    → IsOwned w
    → Inv w.state (x ∷ without_nth k w.waiting) w.timers
unfolding all_below count_if
IsOwned-front w x k h (below, owners, timed, marks) = ground (
  arith,
  all_below-without_nth w.state.generation x k w.waiting h,
  count_if-without_nth (has_generation w.state.generation) x k w.waiting h,
  count_if-without_nth is_mark x k w.waiting h,
)

pub finish-IsOwned :
    (g : ℕ) (x : Waiting) (w : World)
    → is_mark x ≡ false
    → has_generation w.state.generation x ≡ beq g w.state.generation
    → Inv w.state (x ∷ w.waiting) w.timers
    → IsOwned (finish g w)
unfolding all_below count_if finish finish_applying_update owns_applying_update
    clear_reload_watchdog
finish-IsOwned g x w mark owner (below, owners, timed, marks) = ground arith
