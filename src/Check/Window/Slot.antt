-- ===== src/Check/Window/Slot.antt =====
-- The slot that checks within the window of checkUpdate (src/clientCheck.ts) share.
use react_native_pushy.Common.{
  ℕ, ◌+◌, ◌<◌, ◌≤◌, String, Bool, true, false, not, ◌&&◌, ◌||◌, ◌==◌, beq, if◌then◌else◌, Option,
  none, some, List, [], ◌∷◌, ◌≡◌, refl, arith, ◌⊎◌, inl, inr, Bool-cases, eq_sym, beq_iff, sym,
  subst,
}
use react_native_pushy.Check.Window.{
  Env, Question, Outcome, failed, follows, Round, World, outcome_of, ask, start_round, shares,
  dedup_ms, check_update_call, is_slot, Listener, skip,
}

unfoldable pub holds : ℕ → List ℕ → Bool
holds id [] = false
holds id (j ∷ ids) = beq j id || holds id ids

-- A round that vouches for nothing: it has failed, or its own call was interrupted.
abbrev pub IsVoid : List (ℕ × Outcome) → List ℕ → ℕ → Type 0
IsVoid settled interruptions id =
    (outcome_of id settled ≡ some failed) ⊎ (holds id interruptions ≡ true)

module _ (void : ℕ → Type 0) where
  -- The later round asks something else, starts five seconds later, or the earlier one is void.
  abbrev pub Follows : Round → Round → Type 0
  Follows later earlier =
      ((later.fingerprint == earlier.fingerprint) ≡ false)
      ⊎ ((earlier.started + dedup_ms ≤ later.started) ⊎ void earlier.id)

  abbrev pub AreSpaced : List Round → Type 0
  AreSpaced [] = Unit
  AreSpaced (r ∷ []) = Unit
  AreSpaced (r ∷ s ∷ rs) = Follows r s × AreSpaced (s ∷ rs)

  -- The slot is that of the newest round, or that round is void.
  abbrev pub HoldsSlot : List Round → ℕ → Option ℕ → Option String → Type 0
  HoldsSlot [] checking resp fingerprint = resp ≡ none
  HoldsSlot (r ∷ rs) checking resp fingerprint =
      ((resp ≡ some r.id)
        × (fingerprint ≡ some r.fingerprint)
        × (checking ≡ r.started)
        × (0 < r.started))
      ⊎ void r.id

  abbrev Precedes : List Round → Round → Type 0
  Precedes [] new = Unit
  Precedes (r ∷ rs) new = Follows new r

  push-AreSpaced :
      (rounds : List Round) (new : Round)
      → Precedes rounds new
      → AreSpaced rounds
      → AreSpaced (new ∷ rounds)
  push-AreSpaced [] new p h = tt
  push-AreSpaced (r ∷ rs) new p h = (p, h)

  -- Without a slot the newest round is void.
  Precedes-empty :
      (rounds : List Round) (new : Round) (checking : ℕ) (resp : Option ℕ)
      (fingerprint : Option String)
      → resp ≡ none
      → HoldsSlot rounds checking resp fingerprint
      → Precedes rounds new
  Precedes-empty [] new checking resp fingerprint e h = tt
  Precedes-empty (r ∷ rs) new checking resp fingerprint e (inl (a, b, c, d)) =
      absurd (ground (arith, a, e))
  Precedes-empty (r ∷ rs) new checking resp fingerprint e (inr h) = inr (inr h)

  -- A check that does not share the slot differs from the newest round.
  Precedes-unshared :
      (rounds : List Round) (q : Question) (w : World)
      → shares q w ≡ false
      → HoldsSlot rounds w.last_checking w.last_resp w.last_fingerprint
      → Precedes rounds (record { id = w.next_round; fingerprint = q.fingerprint; started = q.now })
  Precedes-unshared [] q w e h = tt
  Precedes-unshared (r ∷ rs) q w e (inr h) = inr (inr h)
  Precedes-unshared (r ∷ rs) q w e (inl (a, b, c, d)) =
      elim (Bool-cases (q.fingerprint == r.fingerprint)) [
        | inr other ↦ inl other
        | inl same ↦
            inr (inl (ground (arith, e, a, b, c, d, same, eq_sym q.fingerprint r.fingerprint)))
      ]

abbrev pub VoidIn : World → ℕ → Type 0
VoidIn w id = IsVoid w.settled w.interruptions id

abbrev pub IsSpaced : World → Type 0
IsSpaced w =
    HoldsSlot (VoidIn w) w.rounds w.last_checking w.last_resp w.last_fingerprint
    × AreSpaced (VoidIn w) w.rounds

-- Rounds that were void stay so.
pub HoldsSlot-map :
    (u v : ℕ → Type 0) (rounds : List Round) (checking : ℕ) (resp : Option ℕ)
    (fingerprint : Option String)
    → ((id : ℕ) → u id → v id)
    → HoldsSlot u rounds checking resp fingerprint
    → HoldsSlot v rounds checking resp fingerprint
HoldsSlot-map u v [] checking resp fingerprint f h = h
HoldsSlot-map u v (r ∷ rs) checking resp fingerprint f (inl h) = inl h
HoldsSlot-map u v (r ∷ rs) checking resp fingerprint f (inr h) = inr (f r.id h)

Follows-map :
    (u v : ℕ → Type 0) (r s : Round) → ((id : ℕ) → u id → v id) → Follows u r s → Follows v r s
Follows-map u v r s f (inl h) = inl h
Follows-map u v r s f (inr (inl h)) = inr (inl h)
Follows-map u v r s f (inr (inr h)) = inr (inr (f s.id h))

pub AreSpaced-map :
    (u v : ℕ → Type 0) (rounds : List Round)
    → ((id : ℕ) → u id → v id)
    → AreSpaced u rounds
    → AreSpaced v rounds
AreSpaced-map u v [] f h = tt
AreSpaced-map u v (r ∷ []) f h = tt
AreSpaced-map u v (r ∷ s ∷ rs) f (p, h) = (Follows-map u v r s f p, AreSpaced-map u v (s ∷ rs) f h)

start_round-IsSpaced :
    (c : ℕ) (q : Question) (w : World)
    → 0 < q.now
    → Precedes
        (VoidIn w)
        w.rounds
        (record { id = w.next_round; fingerprint = q.fingerprint; started = q.now })
    → AreSpaced (VoidIn w) w.rounds
    → IsSpaced (start_round c q w)
start_round-IsSpaced c q w t p h =
    (inl (refl, refl, refl, t), push-AreSpaced (VoidIn w) w.rounds _ p h)

pub ask-IsSpaced :
    (slot : Option ℕ) (c : ℕ) (q : Question) (w : World)
    → w.last_resp ≡ slot
    → 0 < q.now
    → IsSpaced w
    → IsSpaced (ask slot c q w)
ask-IsSpaced none c q w e t (slot, h) =
    start_round-IsSpaced c q w t
      (Precedes-empty (VoidIn w) w.rounds _ w.last_checking w.last_resp w.last_fingerprint e slot) h
ask-IsSpaced (some id) c q w e t (slot, h) = elim (Bool-cases (shares q w)) [
  | inl f ↦
      subst
        (λ b.
          IsSpaced
            (if b then record w { waiting = follows c id ∷ w.waiting } else start_round c q w))
        (sym f) (slot, h)
  | inr f ↦
      subst
        (λ b.
          IsSpaced
            (if b then record w { waiting = follows c id ∷ w.waiting } else start_round c q w))
        (sym f) (start_round-IsSpaced c q w t (Precedes-unshared (VoidIn w) w.rounds q w f slot) h)
]

pub skip-IsSpaced :
    (listener : Listener) (c : ℕ) (w : World) → IsSpaced w → IsSpaced (skip listener c w)
skip-IsSpaced listener c w h = elim (Bool-cases listener.throws_on_state) [
  | inl e ↦ simp e h
  | inr e ↦ simp e h
]

pub check_update_call-IsSpaced :
    (env : Env) (listener : Listener) (q : Question) (w : World)
    → 0 < q.now
    → IsSpaced w
    → IsSpaced (check_update_call env listener q w)
unfolding check_update_call
check_update_call-IsSpaced env listener q w t h =
    let asks =
      ask-IsSpaced w.last_resp w.next_call q (record w { next_call = w.next_call + 1 }) refl t h in
    elim (Bool-cases (env.is_dev && not env.debug)) [
      | inl a ↦
          simp a (skip-IsSpaced listener w.next_call (record w { next_call = w.next_call + 1 }) h)
      | inr a ↦ elim (Bool-cases env.is_web) [
        | inl b ↦
            simp (a, b)
              (skip-IsSpaced listener w.next_call (record w { next_call = w.next_call + 1 }) h)
        | inr b ↦ elim (Bool-cases env.has_hook) [
          | inl d ↦ simp (a, b, d) h
          | inr d ↦ simp (a, b, d) asks
        ]
      ]
    ]

-- The call of a void round clears the slot only if it is its own.
pub HoldsSlot-clear :
    (void : ℕ → Type 0) (rounds : List Round) (id : ℕ) (checking : ℕ) (resp : Option ℕ)
    (fingerprint : Option String)
    → void id
    → is_slot resp id ≡ true
    → HoldsSlot void rounds checking resp fingerprint
    → HoldsSlot void rounds checking none none
HoldsSlot-clear void [] id checking resp fingerprint e f h = refl
HoldsSlot-clear void (r ∷ rs) id checking resp fingerprint e f (inr h) = inr h
HoldsSlot-clear void (r ∷ rs) id checking resp fingerprint e f (inl (a, b, c, d)) =
    let same = (beq_iff r.id id).0 (ground (arith, a, f)) in inr (subst void (sym same) e)
