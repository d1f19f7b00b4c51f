-- ===== src/Harmony/Context/Laws.antt =====
-- The state that the operations of UpdateContext (harmony/pushy/src/main/ets/UpdateContext.ts) leave.
use mathlib.Core.Bool.{false≢true}
use text.Mathlib.TextLemmas.{cons-append}
use Prim.Native.Char.{code}
use react_native_pushy.Common.{
  ℕ, String, true, false, ◌==◌, List, contains, ◌≡◌, ◌≢◌, refl, sym, subst, ap, ◌∙◌, arith,
  Bool-cases, inl, inr, eq_iff,
}
use react_native_pushy.Common.Text.{text_append}
use react_native_pushy.Common.Int.{ℤ}
use react_native_pushy.Json.{Fields, del}
use react_native_pushy.Json.Laws.{get-del}
use react_native_pushy.Harmony.StateCore
use react_native_pushy.Harmony.Store.{read_state, write_state, key_hash_info}
use react_native_pushy.Harmony.Store.Laws.{read_state-write_state, read_state-cong, state_keys}
use react_native_pushy.Harmony.Context.{Context, mark_success, drop_hash_info}

abbrev first_code : String → ℕ
first_code String.[] = 0
first_code (String.◌∷◌ c s) = code c

differs : (a b : String) → (first_code a ≡ first_code b → ⊥) → (a == b) ≡ false
differs a b h = elim (Bool-cases (a == b)) [
  | inl e ↦ absurd (h (ap first_code ((eq_iff a b).0 e)))
  | inr e ↦ e
]

hash_info-first : (v : String) → first_code (text_append key_hash_info v) ≡ 104
hash_info-first v = ap first_code (cons-append "h" "ash_" v)

-- Which of the keys it would be is told by the first letter.
pub no_state_key : (v : String) → contains (text_append key_hash_info v) state_keys ≡ false
no_state_key v =
    let far = λ (key : String) (other : first_code key ≢ 104).
      differs key (text_append key_hash_info v) (λ e. other (e ∙ hash_info-first v)) in
    simp (
      far "packageVersion" (λ e. absurd (omega arith)),
      far "buildTime" (λ e. absurd (omega arith)),
      far "currentVersion" (λ e. absurd (omega arith)),
      far "lastVersion" (λ e. absurd (omega arith)),
      far "firstTime" (λ e. absurd (omega arith)),
      far "firstTimeOk" (λ e. absurd (omega arith)),
      far "rolledBackVersion" (λ e. absurd (omega arith)),
    )

pub apart :
    (key k : String) (keys : List String)
    → contains key keys ≡ false
    → contains k keys ≡ true
    → (key == k) ≡ false
apart key k keys h q = elim (Bool-cases (key == k)) [
  | inr e ↦ e
  | inl e ↦ absurd (
      false≢true
        (sym h ∙ subst (λ (t : String). contains t keys ≡ true) (sym ((eq_iff key k).0 e)) q))
]

module _ (show : ℤ → String) where
  pub read_state-del :
      (key : String) (store : Fields)
      → contains key state_keys ≡ false
      → read_state show (del key store) ≡ read_state show store
  read_state-del key store h =
      read_state-cong show (del key store) store
        (λ k q. ground (arith, get-del k key store, apart key k state_keys h q))

  read_state-drop_hash_info :
      (v : String) (store : Fields)
      → read_state show (drop_hash_info show v store) ≡ read_state show store
  read_state-drop_hash_info v store = elim (Bool-cases (v == "")) [
    | inl e ↦ simp e refl
    | inr e ↦ simp e (read_state-del (text_append key_hash_info v) store (no_state_key v))
  ]

  pub read_state-mark_success :
      (c : Context)
      → (read_state show (mark_success show false true c).store
          ≡ StateCore.mark_success (read_state show c.store))
        × ((mark_success show false true c).disk ≡ (mark_success show false true c).store)
  unfolding mark_success
  read_state-mark_success c =
      let s = read_state show c.store in
      (
        read_state-drop_hash_info (StateCore.stale_version s)
              (write_state (StateCore.mark_success s) c.store)
            ∙ (read_state-write_state show (StateCore.mark_success s) c.store).0,
        refl,
      )
