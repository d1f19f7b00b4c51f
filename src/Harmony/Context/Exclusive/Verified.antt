-- ===== src/Harmony/Context/Exclusive/Verified.antt =====
-- Switches that wait while old versions are deleted (harmony/pushy/src/main/ets/UpdateContext.ts).
use react_native_pushy.Common.{
  ℕ, zero, suc, ◌+◌, ◌<◌, String, Bool, true, false, not, ◌&&◌, ◌||◌, ◌==◌, beq, if◌then◌else◌,
  Option, none, some, List, [], ◌∷◌, contains, ◌≡◌, refl, subst, arith, ◌⊎◌, inl, inr, Bool-cases,
}
use react_native_pushy.Common.Pool.{nth_of, without_nth}
use react_native_pushy.Harmony.StateCore
use react_native_pushy.Harmony.StateCore.{State}
use react_native_pushy.Harmony.Context.Exclusive.{
  Waiting, queued, verifying, World, is_none, attempt, apply_switch, after_verification, resume,
  read_disk, begin_cleanup, is_deletable,
}

-- A deletion has begun since the verification, or none is in flight and the version that was found on
-- disk is still there.
abbrev pub IsVerified : (String → Bool) → Option (List String) → ℕ → Waiting → Type 0
IsVerified installed cleanup starts (queued hash generation left) = Unit
IsVerified installed cleanup starts (verifying hash generation left begun (some true)) =
    (begun < starts) ⊎ ((begun ≡ starts) × (is_none cleanup ≡ true) × (installed hash ≡ true))
IsVerified installed cleanup starts (verifying hash generation left begun _) =
    (begun < starts) ⊎ ((begun ≡ starts) × (is_none cleanup ≡ true))

abbrev pub AreVerified : (String → Bool) → Option (List String) → ℕ → List Waiting → Type 0
AreVerified installed cleanup starts [] = Unit
AreVerified installed cleanup starts (x ∷ xs) =
    IsVerified installed cleanup starts x × AreVerified installed cleanup starts xs

-- A version that a launch may open is installed, and the deletion in flight keeps it.
abbrev pub IsKept : (String → Bool) → Option (List String) → String → Type 0
IsKept installed cleanup v =
    ((v == "") ≡ true) ⊎ ((installed v ≡ true) × (is_deletable cleanup v ≡ false))

-- The version that a launch on this state would open, and the one that it would roll back to.
abbrev pub AreKept : (String → Bool) → Option (List String) → State → Type 0
AreKept installed cleanup s =
    IsKept installed cleanup s.current_version × IsKept installed cleanup s.last_version

abbrev pub Inv : World → Type 0
Inv w =
    AreKept w.installed w.cleanup w.state
    × AreKept w.installed w.cleanup w.disk
    × AreVerified w.installed w.cleanup w.starts w.waiting

pub AreVerified-map :
    (i j : String → Bool) (c d : Option (List String)) (s t : ℕ)
    → ((x : Waiting) → IsVerified i c s x → IsVerified j d t x)
    → (xs : List Waiting) → AreVerified i c s xs
    → AreVerified j d t xs
AreVerified-map i j c d s t f [] h = tt
AreVerified-map i j c d s t f (x ∷ xs) (p, h) = (f x p, AreVerified-map i j c d s t f xs h)

pub inside : (a b : Waiting) → ◌≡◌ {A = Option Waiting} (some a) (some b) → a ≡ b
inside a b q = cc

pub AreVerified-nth :
    (i : String → Bool) (c : Option (List String)) (s k : ℕ) (x : Waiting) (xs : List Waiting)
    → nth_of k xs ≡ some x
    → AreVerified i c s xs
    → IsVerified i c s x × AreVerified i c s (without_nth k xs)
unfolding nth_of without_nth
AreVerified-nth i c s k x [] e h = cc
AreVerified-nth i c s zero x (y ∷ xs) e (p, h) = (subst (IsVerified i c s) (inside y x e) p, h)
AreVerified-nth i c s (suc k) x (y ∷ xs) e (p, h) =
    let (q, r) = AreVerified-nth i c s k x xs e h in (q, (p, r))

pub AreVerified-read_disk :
    (i : String → Bool) (c : Option (List String)) (s k : ℕ) (xs : List Waiting)
    → AreVerified i c s xs
    → AreVerified i c s (read_disk i k xs)
unfolding read_disk
AreVerified-read_disk i c s k [] h = tt
AreVerified-read_disk i c s zero (verifying hash g l begun none ∷ xs) (p, h) =
    (one (i hash) refl p, h)
  where
    one :
        (b : Bool)
        → i hash ≡ b
        → IsVerified i c s (verifying hash g l begun none)
        → IsVerified i c s (verifying hash g l begun (some b))
    one true e (inl q) = inl q
    one true e (inr (q, r)) = inr (q, r, e)
    one false e q = q
AreVerified-read_disk i c s zero (verifying hash g l begun (some b) ∷ xs) h = h
AreVerified-read_disk i c s zero (queued hash g l ∷ xs) h = h
AreVerified-read_disk i c s (suc k) (x ∷ xs) (p, h) = (p, AreVerified-read_disk i c s k xs h)

pub attempt-Inv :
    (hash : String) (generation left : ℕ) (w : World) → Inv w → Inv (attempt hash generation left w)
attempt-Inv hash generation zero w h = h
attempt-Inv hash generation (suc left) w (a, d, c) = elim (Bool-cases (is_none w.cleanup)) [
  | inl e ↦ simp e (a, d, (inr (refl, refl), c))
  | inr e ↦ simp e (a, d, (tt, c))
]

pub undeletable :
    (c : Option (List String)) (v : String) → is_none c ≡ true → is_deletable c v ≡ false
undeletable none v e = refl
undeletable (some keep) v e = cc

apply_switch-Inv :
    (hash : String) (generation : ℕ) (w : World)
    → is_none w.cleanup ≡ true
    → w.installed hash ≡ true
    → Inv w
    → Inv (apply_switch hash generation w)
unfolding StateCore.switch_version
apply_switch-Inv hash generation w e f ((a, b), d, c) =
    elim (Bool-cases (beq w.reset_generation generation)) [
      | inr g ↦ simp g ((a, b), d, c)
      | inl g ↦ simp g ((inr (f, undeletable w.cleanup hash e), last), d, c)
    ]
  where
    last : IsKept w.installed w.cleanup (
        if not (w.state.current_version == "") && not (w.state.current_version == hash)
        then w.state.current_version
        else w.state.last_version)
    last =
        elim (Bool-cases
          (not (w.state.current_version == "") && not (w.state.current_version == hash))) [
            | inl k ↦ simp k a
            | inr k ↦ simp k b
          ]

after_verification-Inv :
    (hash : String) (generation left begun : ℕ) (w : World)
    → IsVerified w.installed w.cleanup w.starts (verifying hash generation left begun (some true))
    → Inv w
    → Inv (after_verification hash generation left begun w)
after_verification-Inv hash generation left begun w v h =
    elim (Bool-cases (is_none w.cleanup && beq w.starts begun)) [
      | inr g ↦ simp g (attempt-Inv hash generation left w h)
      | inl g ↦
          simp g
            (apply_switch-Inv hash generation w (ground (arith, g)) (found (ground (arith, g)) v) h)
    ]
  where
    found :
        beq w.starts begun ≡ true
        → IsVerified w.installed w.cleanup w.starts
            (verifying hash generation left begun (some true))
        → w.installed hash ≡ true
    found g (inl later) = absurd (ground (arith, later, g))
    found g (inr (same, quiet, there)) = there

pub resume-Inv :
    (x : Option Waiting) (before w : World)
    → Inv before
    → ((y : Waiting) → x ≡ some y → IsVerified w.installed w.cleanup w.starts y)
    → Inv w
    → Inv (resume x before w)
unfolding resume
resume-Inv none before w b v h = b
resume-Inv (some (queued hash g left)) before w b v h = elim (Bool-cases (is_none w.cleanup)) [
  | inl e ↦ simp e (attempt-Inv hash g left w h)
  | inr e ↦ simp e b
]
resume-Inv (some (verifying hash g left begun none)) before w b v h = b
resume-Inv (some (verifying hash g left begun (some false))) before w b v h = h
resume-Inv (some (verifying hash g left begun (some true))) before w b v h =
    after_verification-Inv hash g left begun w (v (verifying hash g left begun (some true)) refl) h

IsKept-keep :
    (i : String → Bool) (c : Option (List String)) (keep : List String) (v : String)
    → contains v keep ≡ true
    → IsKept i c v
    → IsKept i (some keep) v
IsKept-keep i c keep v e (inl h) = inl h
IsKept-keep i c keep v e (inr (h, k)) = inr (h, ground (arith, e))

-- The names of the state are kept, or there is none to keep.
abbrev pub are_spared : List String → State → Bool
are_spared keep s =
    ((s.current_version == "") || contains s.current_version keep)
    && ((s.last_version == "") || contains s.last_version keep)

AreKept-keep :
    (i : String → Bool) (c : Option (List String)) (keep : List String) (s : State)
    → are_spared keep s ≡ true
    → AreKept i c s
    → AreKept i (some keep) s
AreKept-keep i c keep s h (a, b) =
    (kept s.current_version (ground (arith, h)) a, kept s.last_version (ground (arith, h)) b)
  where
    kept :
        (v : String) → ((v == "") || contains v keep) ≡ true → IsKept i c v → IsKept i (some keep) v
    kept v h k = elim (Bool-cases (v == "")) [
      | inl e ↦ inl e
      | inr e ↦ IsKept-keep i c keep v (ground (arith, h, e)) k
    ]

pub begin_cleanup-Inv :
    (keep : List String) (w : World)
    → (is_none w.cleanup ≡ true → are_spared keep w.state ≡ true)
    → (is_none w.cleanup ≡ true → are_spared keep w.disk ≡ true)
    → Inv w
    → Inv (begin_cleanup keep w)
begin_cleanup-Inv keep w p q (a, b, c) = elim (Bool-cases (is_none w.cleanup)) [
  | inr e ↦ simp e (a, b, c)
  | inl e ↦ simp e (
    AreKept-keep w.installed w.cleanup keep w.state (p e) a,
    AreKept-keep w.installed w.cleanup keep w.disk (q e) b,
    AreVerified-map w.installed w.installed w.cleanup (some keep) w.starts (w.starts + 1) later
        w.waiting c,
  )
]
  where
    later :
        (x : Waiting)
        → IsVerified w.installed w.cleanup w.starts x
        → IsVerified w.installed (some keep) (w.starts + 1) x
    later (queued hash g left) h = tt
    later (verifying hash g left begun none) h = inl (ground arith)
    later (verifying hash g left begun (some true)) h = inl (ground arith)
    later (verifying hash g left begun (some false)) h = inl (ground arith)
