-- ===== src/Check/Window/Spacing.antt =====
-- How the requests of checkUpdate (src/clientCheck.ts) follow one another.
use react_native_pushy.Common.{
  ℕ, ◌<◌, ltb, Option, none, some, List, [], ◌∷◌, ◌≡◌, refl, inl, inr, Bool-cases, All, beq,
  beq_iff, arith,
}
use react_native_pushy.Common.Pool.{nth_of, without_nth}
use react_native_pushy.Flow.Verdict.{resolve_check_result}
use react_native_pushy.Check.Window.{
  interrupted, completed, warn_bundle, Env, Question, Outcome, answered, failed, Consent, allows,
  declines, hook_throws, Waiting, hook, leads, follows, Listener, Action, catch_round, World, init,
  outcome_of, after_hook, after_shared, after_round, resume, settle, add_settled, once_settled,
  Event, checks, settles, resumes, step, run, is_slot,
}
use react_native_pushy.Check.Window.Slot.{
  AreSpaced, IsSpaced, IsVoid, VoidIn, holds, skip-IsSpaced, HoldsSlot-map, AreSpaced-map,
  ask-IsSpaced, check_update_call-IsSpaced, HoldsSlot-clear,
}

after_hook-IsSpaced :
    (c : ℕ) (consent : Consent) (listener : Listener) (q : Question) (w : World)
    → 0 < q.now
    → IsSpaced w
    → IsSpaced (after_hook c consent listener q w)
unfolding after_hook
after_hook-IsSpaced c allows listener q w t h = ask-IsSpaced w.last_resp c q w refl t h
after_hook-IsSpaced c declines listener q w t h = skip-IsSpaced listener c w h
after_hook-IsSpaced c hook_throws listener q w t h = h

after_shared-IsSpaced :
    (env : Env) (listener : Listener) (c : ℕ) (outcome : Outcome) (w : World)
    → IsSpaced w
    → IsSpaced (after_shared env listener c outcome w)
unfolding after_shared
after_shared-IsSpaced env listener c (answered root) w h =
    elim (Bool-cases listener.throws_on_state) [ inl e ↦ simp e h | inr e ↦ simp e h ]
after_shared-IsSpaced env listener c failed w h = h

catch_round-IsSpaced :
    (env : Env) (listener : Listener) (c id : ℕ) (w : World)
    → VoidIn w id
    → IsSpaced w
    → IsSpaced (catch_round env listener c id w)
catch_round-IsSpaced env listener c id w e (slot, h) = elim (Bool-cases (is_slot w.last_resp id)) [
  | inl f ↦ simp f (
    HoldsSlot-clear (VoidIn w) w.rounds id w.last_checking w.last_resp w.last_fingerprint e f slot,
    h,
  )
  | inr f ↦ simp f (slot, h)
]

-- An interruption voids its round, and no other stops being void.
interrupted-IsSpaced :
    (id : ℕ) (actions : List Action) (w : World)
    → IsSpaced w
    → IsSpaced (record w { interruptions = id ∷ w.interruptions; actions = actions })
unfolding holds
interrupted-IsSpaced id actions w (slot, h) = (
  HoldsSlot-map (VoidIn w) _ w.rounds w.last_checking w.last_resp w.last_fingerprint more slot,
  AreSpaced-map (VoidIn w) _ w.rounds more h,
)
  where
    more : (j : ℕ) → IsVoid w.settled w.interruptions j → IsVoid w.settled (id ∷ w.interruptions) j
    more j (inl f) = inl f
    more j (inr f) = inr (ground (arith, f))

after_round-IsSpaced :
    (env : Env) (listener : Listener) (c id : ℕ) (outcome : Outcome) (w : World)
    → outcome_of id w.settled ≡ some outcome
    → IsSpaced w
    → IsSpaced (after_round env listener c id outcome w)
unfolding after_round holds
after_round-IsSpaced env listener c id failed w e h =
    catch_round-IsSpaced env listener c id w (inl e) h
after_round-IsSpaced env listener c id (answered root) w e h =
    elim (Bool-cases listener.throws_on_state) [
      | inr f ↦ simp f h
      | inl f ↦
          let actions =
            interrupted c
            ∷ completed c (resolve_check_result root env.identity)
            ∷ warn_bundle root w.actions in
          simp f (
            catch_round-IsSpaced env listener c id
              (record w { interruptions = id ∷ w.interruptions; actions = actions })
              (inr (ground arith)) (interrupted-IsSpaced id actions w h))
    ]

once_settled-IsSpaced :
    (outcome : Option Outcome) (before : World) (go : Outcome → World)
    → IsSpaced before
    → ((o : Outcome) → outcome ≡ some o → IsSpaced (go o))
    → IsSpaced (once_settled outcome before go)
once_settled-IsSpaced none before go b h = b
once_settled-IsSpaced (some outcome) before go b h = h outcome refl

resume-IsSpaced :
    (env : Env) (consent : Consent) (listener : Listener) (q : Question) (x : Option Waiting)
    (before w : World)
    → 0 < q.now
    → IsSpaced before
    → IsSpaced w
    → IsSpaced (resume env consent listener q x before w)
unfolding resume
resume-IsSpaced env consent listener q none before w t b h = b
resume-IsSpaced env consent listener q (some (hook c)) before w t b h =
    after_hook-IsSpaced c consent listener q w t h
resume-IsSpaced env consent listener q (some (leads c id)) before w t b h =
    once_settled-IsSpaced (outcome_of id w.settled) before (λ o. after_round env listener c id o w)
      b (λ o e. after_round-IsSpaced env listener c id o w e h)
resume-IsSpaced env consent listener q (some (follows c id)) before w t b h =
    once_settled-IsSpaced (outcome_of id w.settled) before (λ o. after_shared env listener c o w) b
      (λ o e. after_shared-IsSpaced env listener c o w h)

-- A promise that settles changes the outcome of no settled one.
keeps_IsVoid :
    (id j : ℕ) (outcome : Outcome) (settled : List (ℕ × Outcome)) (interruptions : List ℕ)
    → outcome_of id settled ≡ none
    → IsVoid settled interruptions j
    → IsVoid ((id, outcome) ∷ settled) interruptions j
unfolding outcome_of
keeps_IsVoid id j outcome settled interruptions e (inr h) = inr h
keeps_IsVoid id j outcome settled interruptions e (inl h) = elim (Bool-cases (beq id j)) [
  | inl same ↦ absurd (ground (arith, e, h, same, (beq_iff id j).0 same))
  | inr other ↦ inl (simp other h)
]

add_settled-IsSpaced :
    (before : Option Outcome) (id : ℕ) (outcome : Outcome) (w : World)
    → outcome_of id w.settled ≡ before
    → IsSpaced w
    → IsSpaced (add_settled before id outcome w)
add_settled-IsSpaced (some earlier) id outcome w e h = h
add_settled-IsSpaced none id outcome w e (slot, h) = elim (Bool-cases (ltb id w.next_round)) [
  | inr f ↦ simp f (slot, h)
  | inl f ↦ simp f (
    HoldsSlot-map (VoidIn w) _ w.rounds w.last_checking w.last_resp w.last_fingerprint still slot,
    AreSpaced-map (VoidIn w) _ w.rounds still h,
  )
]
  where
    still :
        (j : ℕ)
        → IsVoid w.settled w.interruptions j
        → IsVoid ((id, outcome) ∷ w.settled) w.interruptions j
    still j v = keeps_IsVoid id j outcome w.settled w.interruptions e v

-- The clock stands past zero.
abbrev pub IsTimed : Event → Type 0
IsTimed (checks listener q) = 0 < q.now
IsTimed (settles id outcome) = Unit
IsTimed (resumes k consent listener q) = 0 < q.now

step-IsSpaced :
    (env : Env) (e : Event) (w : World) → IsTimed e → IsSpaced w → IsSpaced (step env e w)
unfolding step settle
step-IsSpaced env (checks listener q) w t h = check_update_call-IsSpaced env listener q w t h
step-IsSpaced env (settles id outcome) w t h =
    add_settled-IsSpaced (outcome_of id w.settled) id outcome w refl h
step-IsSpaced env (resumes k consent listener q) w t h =
    resume-IsSpaced env consent listener q (nth_of k w.waiting) w
      (record w { waiting = without_nth k w.waiting }) t h h

run-IsSpaced :
    (env : Env) (es : List Event) (w : World)
    → All IsTimed es
    → IsSpaced w
    → IsSpaced (run env es w)
unfolding run
run-IsSpaced env [] w t h = h
run-IsSpaced env (e ∷ es) w (t, ts) h =
    run-IsSpaced env es (step env e w) ts (step-IsSpaced env e w t h)

-- Over every order of calls, settlements and continuations, of two successive request rounds of
-- checkUpdate the later asks something else, starts at least five seconds after the earlier, or comes
-- after the earlier has failed or its own call was interrupted by an afterCheckUpdate that throws at
-- once. Only successive rounds are compared: a check that is asked again after a different one sends
-- its request again.
pub run-init-AreSpaced :
    (env : Env) (es : List Event)
    → All IsTimed es
    → AreSpaced (VoidIn (run env es init)) (run env es init).rounds
unfolding init
run-init-AreSpaced env es t = (run-IsSpaced env es init t (refl, tt)).1
