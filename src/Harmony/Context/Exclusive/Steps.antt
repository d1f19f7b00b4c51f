-- ===== src/Harmony/Context/Exclusive/Steps.antt =====
-- The steps of switches and deletions (harmony/pushy/src/main/ets/UpdateContext.ts) one by one.
use react_native_pushy.Common.{
  ℕ, ◌-◌, beq, List, String, Bool, true, false, not, ◌&&◌, ◌||◌, ◌==◌, Option, none, some, [], ◌∷◌,
  ◌≡◌, refl, sym, subst, arith, inl, inr, Bool-cases, eq_iff, eq_refl,
}
use react_native_pushy.Common.Pool.{nth_of, without_nth}
use react_native_pushy.Harmony.Context.Exclusive.{
  Waiting, queued, verifying, World, is_none, switch_version_call, resume, keep_names,
  reset_keep_names, is_deletable, Event, switches, resumes, reads, cleanup_starts,
  reset_cleanup_starts, cleanup_ends, resets, flushes, reset_flushes, deletes, installs, step,
  max_verify_attempts,
}
use react_native_pushy.Harmony.Context.Exclusive.Verified.{
  IsVerified, IsKept, Inv, AreVerified-map, inside, AreVerified-nth, AreVerified-read_disk,
  attempt-Inv, are_spared, undeletable, resume-Inv, begin_cleanup-Inv,
}

deletes-Inv : (v : String) (w : World) → Inv w → Inv (step (deletes v) w)
unfolding step
deletes-Inv v w ((a, b), (p, q), c) = elim (Bool-cases (is_deletable w.cleanup v)) [
  | inr e ↦ simp e ((a, b), (p, q), c)
  | inl e ↦ simp e (
    (kept e w.state.current_version a, kept e w.state.last_version b),
    (kept e w.disk.current_version p, kept e w.disk.last_version q),
    AreVerified-map w.installed (λ u. not (v == u) && w.installed u) w.cleanup w.cleanup w.starts
        w.starts (still e) w.waiting c,
  )
]
  where
    kept :
        is_deletable w.cleanup v ≡ true
        → (u : String) → IsKept w.installed w.cleanup u
        → IsKept (λ t. not (v == t) && w.installed t) w.cleanup u
    kept e u (inl h) = inl h
    kept e u (inr (h, k)) = elim (Bool-cases (v == u)) [
      | inl f ↦ absurd (
          ground (
            arith,
            e,
            subst (λ (t : String). is_deletable w.cleanup t ≡ false) (sym ((eq_iff v u).0 f)) k,
          ))
      | inr f ↦ inr (ground (arith, h, f), k)
    ]

    busy : is_deletable w.cleanup v ≡ true → is_none w.cleanup ≡ true → ⊥
    busy e f = absurd (ground (arith, e, undeletable w.cleanup v f))

    still :
        is_deletable w.cleanup v ≡ true
        → (x : Waiting) → IsVerified w.installed w.cleanup w.starts x
        → IsVerified (λ t. not (v == t) && w.installed t) w.cleanup w.starts x
    still e (queued hash g left) h = tt
    still e (verifying hash g left begun none) h = h
    still e (verifying hash g left begun (some false)) h = h
    still e (verifying hash g left begun (some true)) (inl h) = inl h
    still e (verifying hash g left begun (some true)) (inr (p, q, r)) = absurd (busy e q)

installs-Inv : (v : String) (w : World) → Inv w → Inv (step (installs v) w)
unfolding step
installs-Inv v w ((a, b), (p, q), c) = (
  (kept w.state.current_version a, kept w.state.last_version b),
  (kept w.disk.current_version p, kept w.disk.last_version q),
  AreVerified-map w.installed (λ u. (v == u) || w.installed u) w.cleanup w.cleanup w.starts w.starts
      still w.waiting c,
)
  where
    kept :
        (u : String)
        → IsKept w.installed w.cleanup u
        → IsKept (λ t. (v == t) || w.installed t) w.cleanup u
    kept u (inl h) = inl h
    kept u (inr (h, k)) = inr (ground (arith, h), k)

    still :
        (x : Waiting)
        → IsVerified w.installed w.cleanup w.starts x
        → IsVerified (λ t. (v == t) || w.installed t) w.cleanup w.starts x
    still (queued hash g left) h = tt
    still (verifying hash g left begun none) h = h
    still (verifying hash g left begun (some false)) h = h
    still (verifying hash g left begun (some true)) (inl h) = inl h
    still (verifying hash g left begun (some true)) (inr (p, q, r)) = inr (p, q, ground (arith, r))

cleanup_ends-Inv : (w : World) → Inv w → Inv (step cleanup_ends w)
unfolding step
cleanup_ends-Inv w ((a, b), (p, q), c) = (
  (kept w.state.current_version a, kept w.state.last_version b),
  (kept w.disk.current_version p, kept w.disk.last_version q),
  AreVerified-map w.installed w.installed w.cleanup none w.starts w.starts still w.waiting c,
)
  where
    kept : (u : String) → IsKept w.installed w.cleanup u → IsKept w.installed none u
    kept u (inl h) = inl h
    kept u (inr (h, k)) = inr (h, refl)

    still :
        (x : Waiting)
        → IsVerified w.installed w.cleanup w.starts x
        → IsVerified w.installed none w.starts x
    still (queued hash g left) h = tt
    still (verifying hash g left begun none) h = ground arith
    still (verifying hash g left begun (some false)) h = ground arith
    still (verifying hash g left begun (some true)) h = ground arith

-- Memory and disk name the same versions: no flush is outstanding and none has failed.
abbrev pub is_in_step : World → Bool
is_in_step w =
    (w.disk.current_version == w.state.current_version)
    && (w.disk.last_version == w.state.last_version)

-- A deletion begins that may remove a version in use: one that finds disk and memory out of step, or the deletion
-- of a reset that finds a version named other than the one the process launched.
abbrev pub spoils : Event → World → Bool
spoils cleanup_starts w = is_none w.cleanup && not (is_in_step w)
spoils reset_cleanup_starts w =
    is_none w.cleanup
    && not (beq w.owed 0)
    && not (is_in_step w && are_spared (w.launch_version ∷ []) w.state)
spoils _ w = false

in_step-spared :
    (keep : List String) (w : World)
    → is_in_step w ≡ true
    → are_spared keep w.state ≡ true
    → are_spared keep w.disk ≡ true
in_step-spared keep w e h =
    let a = (eq_iff w.disk.current_version w.state.current_version).0 (ground (arith, e)) in
    let b = (eq_iff w.disk.last_version w.state.last_version).0 (ground (arith, e)) in rw (a, b) h

keep_names-spared : (w : World) → are_spared (keep_names w) w.state ≡ true
keep_names-spared w = ground (arith, eq_refl w.state.current_version, eq_refl w.state.last_version)

cleanup_starts-Inv :
    (w : World) → spoils cleanup_starts w ≡ false → Inv w → Inv (step cleanup_starts w)
unfolding step
cleanup_starts-Inv w h =
    begin_cleanup-Inv (keep_names w) w (λ e. keep_names-spared w)
      (λ e. in_step-spared (keep_names w) w (ground (arith, e, h)) (keep_names-spared w))

reset_cleanup_starts-Inv :
    (w : World) → spoils reset_cleanup_starts w ≡ false → Inv w → Inv (step reset_cleanup_starts w)
unfolding step
reset_cleanup_starts-Inv w h (a, d, c) =
    elim (Bool-cases (not (is_none w.cleanup) || beq w.owed 0)) [
      | inl e ↦ simp e (a, d, c)
      | inr e ↦
          let keep = reset_keep_names w in
          let fine : (is_in_step w && are_spared keep w.state) ≡ true = ground (arith, e, h) in
          simp e (
            begin_cleanup-Inv keep (record w { owed = w.owed - 1 }) (λ f. ground (arith, fine))
              (λ f. in_step-spared keep w (ground (arith, fine)) (ground (arith, fine))) (a, d, c))
    ]

end_reset-Inv : (flushed : Bool) (w : World) → Inv w → Inv (step (reset_flushes flushed) w)
unfolding step
end_reset-Inv flushed w (a, d, c) = elim (Bool-cases (beq w.resetting 0)) [
  | inl e ↦ simp e (a, d, c)
  | inr e ↦ elim (Bool-cases flushed) [
    | inl f ↦ simp (e, f) (a, a, c)
    | inr f ↦ simp (e, f) (a, d, c)
  ]
]

resumes-Inv :
    (k : ℕ) (w : World) (x : Option Waiting)
    → nth_of k w.waiting ≡ x
    → Inv w
    → Inv (resume x w (record w { waiting = without_nth k w.waiting }))
unfolding resume
resumes-Inv k w none e h = h
resumes-Inv k w (some x) e (a, b, c) =
    let (p, q) = AreVerified-nth w.installed w.cleanup w.starts k x w.waiting e c in
    resume-Inv (some x) w (record w { waiting = without_nth k w.waiting }) (a, b, c)
      (λ y f. subst (IsVerified w.installed w.cleanup w.starts) (inside x y f) p) (a, b, q)

pub step-Inv : (e : Event) (w : World) → spoils e w ≡ false → Inv w → Inv (step e w)
unfolding step switch_version_call
step-Inv (switches hash) w o h = attempt-Inv hash w.reset_generation max_verify_attempts w h
step-Inv (resumes k) w o h = resumes-Inv k w (nth_of k w.waiting) refl h
step-Inv (reads k) w o (a, b, c) =
    (a, b, AreVerified-read_disk w.installed w.cleanup w.starts k w.waiting c)
step-Inv cleanup_starts w o h = cleanup_starts-Inv w o h
step-Inv reset_cleanup_starts w o h = reset_cleanup_starts-Inv w o h
step-Inv cleanup_ends w o h = cleanup_ends-Inv w h
step-Inv resets w o (a, b, c) = ((inl refl, inl refl), b, c)
step-Inv flushes w o (a, b, c) = (a, a, c)
step-Inv (reset_flushes flushed) w o h = end_reset-Inv flushed w h
step-Inv (deletes v) w o h = deletes-Inv v w h
step-Inv (installs v) w o h = installs-Inv v w h
