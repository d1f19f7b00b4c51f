-- ===== src/Check/Window/Counts.antt =====
-- How often each call of checkUpdate (src/clientCheck.ts) tells `afterCheckUpdate`.
use react_native_pushy.Common.{ℕ, ◌+◌, ◌≤◌, Bool, false, ltb, beq, ◌≡◌}
use react_native_pushy.Common.Pool.{of_bool, count_if}
use react_native_pushy.Check.Window.{
  Waiting, hook, leads, follows, Action, skipped, completed, error, interrupted, returns, throws,
  rejects, listener_rejects, World, Event, checks, settles, resumes,
}

-- A call tells `afterCheckUpdate` of its end.
abbrev pub is_notice : ℕ → Action → Bool
is_notice c (skipped d) = beq d c
is_notice c (completed d fs) = beq d c
is_notice c (error d) = beq d c
is_notice c _ = false

-- A call ends with the error of its hook.
abbrev pub is_rejection : ℕ → Action → Bool
is_rejection c (rejects d) = beq d c
is_rejection c _ = false

-- The listener of a call throws when it is told of its result.
abbrev pub is_interruption : ℕ → Action → Bool
is_interruption c (interrupted d) = beq d c
is_interruption c _ = false

-- The promise of a call is settled.
abbrev pub is_end : ℕ → Action → Bool
is_end c (returns d result) = beq d c
is_end c (throws d) = beq d c
is_end c (rejects d) = beq d c
is_end c (listener_rejects d) = beq d c
is_end c _ = false

abbrev pub is_of_call : ℕ → Waiting → Bool
is_of_call c (hook d) = beq d c
is_of_call c (leads d id) = beq d c
is_of_call c (follows d id) = beq d c

abbrev pub told : (ℕ → Action → Bool) → ℕ → World → ℕ
told is_it c w = count_if (is_it c) w.actions

abbrev pub awaited : ℕ → World → ℕ
awaited c w = count_if (is_of_call c) w.waiting

-- Counts of a call, with so many of its entries of `waiting` in hand.
abbrev pub Tally : ℕ → ℕ → World → Type 0
Tally c held w =
    (told is_notice c w + told is_rejection c w + awaited c w + held
      ≡ of_bool (ltb c w.next_call) + told is_interruption c w)
    × (told is_end c w + awaited c w + held ≡ of_bool (ltb c w.next_call))
    × (told is_interruption c w + awaited c w + held ≤ of_bool (ltb c w.next_call))

abbrev pub IsCounted : ℕ → World → Type 0
IsCounted c w = Tally c 0 w

abbrev pub IsCountedWith : ℕ → Waiting → World → Type 0
IsCountedWith c x w = Tally c (of_bool (is_of_call c x)) w

-- The listener does not throw on a state.
abbrev pub IsCalm : Event → Type 0
IsCalm (checks listener q) = listener.throws_on_state ≡ false
IsCalm (settles id outcome) = Unit
IsCalm (resumes k consent listener q) = listener.throws_on_state ≡ false

module _ (c : ℕ) where
  abbrev IsQuiet : World → Type 0
  IsQuiet w = told is_interruption c w ≡ 0
