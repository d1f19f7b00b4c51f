-- ===== src/Common/Pool.antt =====
-- Entries that wait side by side and are taken out in any order.
use Prim.Native.Nat.{ℕ, zero, suc, ◌+◌}
use mathlib.Core.Path.{◌≡◌}
use mathlib.Core.Bool.{Bool, true, false}
use mathlib.Core.Option.{Option, none, some}
use mathlib.Core.List.{List, [], ◌∷◌}
use native.Mathlib.Omega.{arith}

unfoldable pub nth_of : {A : Type 0} → ℕ → List A → Option A
nth_of k [] = none
nth_of zero (x ∷ xs) = some x
nth_of (suc k) (x ∷ xs) = nth_of k xs

unfoldable pub without_nth : {A : Type 0} → ℕ → List A → List A
without_nth k [] = []
without_nth zero (x ∷ xs) = xs
without_nth (suc k) (x ∷ xs) = x ∷ without_nth k xs

abbrev pub of_bool : Bool → ℕ
of_bool true = 1
of_bool false = 0

unfoldable pub count_if : {A : Type 0} → (A → Bool) → List A → ℕ
count_if p [] = 0
count_if p (x ∷ xs) = of_bool (p x) + count_if p xs

pub count_if-without_nth :
    {A : Type 0} (p : A → Bool) (x : A) (k : ℕ) (xs : List A)
    → nth_of k xs ≡ some x
    → count_if p xs ≡ of_bool (p x) + count_if p (without_nth k xs)
unfolding count_if nth_of without_nth
count_if-without_nth p x k [] h = ground arith
count_if-without_nth p x zero (y ∷ xs) h = ground arith
count_if-without_nth p x (suc k) (y ∷ xs) h = ground (arith, count_if-without_nth p x k xs h)
