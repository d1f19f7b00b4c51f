-- ===== src/Check/Window.antt =====
-- checkUpdate (src/clientCheck.ts) as steps: what awaits a promise is a value in `waiting`, and a step
-- is a call, the settlement of one request promise, or the code behind one `await`.
pub mod Counts
pub mod Slot
pub mod Spacing
use react_native_pushy.Common.{
  ℕ, ◌+◌, suc, String, Bool, true, false, not, ◌&&◌, ◌||◌, ◌==◌, ltb, beq, if◌then◌else◌, Option,
  none, some, List, [], ◌∷◌,
}
use react_native_pushy.Common.Pool.{nth_of, without_nth}
use react_native_pushy.Json.{Value, str, arr, Items, no_items, item, Fields, get, truthy}
use react_native_pushy.NativeConfig.{texts}
use react_native_pushy.Flow.Verdict.{UpdateIdentity, resolve_check_result}

-- `buildCheckFingerprint` (src/updateFlowCore.ts); `JSON.stringify` is a parameter.
unfoldable pub build_check_fingerprint :
    (Value → String) → Option String → List String → List String → String → String
build_check_fingerprint stringify app_key endpoints query_urls body =
    let key : String = elim app_key [ none ↦ "" | some s ↦ s ] in
    stringify (
      arr (
        item (str key) (
          item (arr (texts endpoints)) (item (arr (texts query_urls)) (item (str body) no_items)))))

-- What the steps read of the client and of the device.
pub record Env : Type 0 where
  pub is_dev : Bool
  pub debug : Bool
  pub is_web : Bool
  pub has_hook : Bool
  pub throw_error : Bool
  pub identity : UpdateIdentity

-- The clock and the fingerprint of the request when the code behind the hook runs.
pub record Question : Type 0 where
  pub now : ℕ
  pub fingerprint : String

-- What a request promise comes to: a check result, or an error.
pub data Outcome : Type 0 where
  answered : Fields → Outcome
  failed : Outcome

-- What `beforeCheckUpdate` comes to.
pub data Consent : Type 0 where
  allows : Consent
  declines : Consent
  hook_throws : Consent

-- Whether `afterCheckUpdate` throws at once, rather than in a promise, when it is told that a check was skipped
-- or completed, and when it is told of an error.
pub record Listener : Type 0 where
  pub throws_on_state : Bool
  pub throws_on_error : Bool

-- A call awaits its hook, the promise that it made, or the promise of an equal check.
pub data Waiting : Type 0 where
  hook : ℕ → Waiting
  leads : ℕ → ℕ → Waiting
  follows : ℕ → ℕ → Waiting

pub data Action : Type 0 where
  skipped : ℕ → Action
  completed : ℕ → Fields → Action
  error : ℕ → Action
  reports_checking reports_failure reports_unknown_bundle marks_completed : Action
  returns : ℕ → Option Fields → Action
  interrupted : ℕ → Action
  throws : ℕ → Action
  rejects : ℕ → Action
  listener_rejects : ℕ → Action

-- A request promise that was made.
pub record Round : Type 0 where
  pub id : ℕ
  pub fingerprint : String
  pub started : ℕ

-- `lastChecking` is 0 where it is undefined. The rounds, the settled promises and the actions stand
-- newest first. `interruptions` are the rounds whose own call was thrown out of its success by `afterCheckUpdate`.
pub record World : Type 0 where
  pub last_checking : ℕ
  pub last_resp : Option ℕ
  pub last_fingerprint : Option String
  pub next_round : ℕ
  pub next_call : ℕ
  pub rounds : List Round
  pub settled : List (ℕ × Outcome)
  pub interruptions : List ℕ
  pub waiting : List Waiting
  pub actions : List Action

unfoldable pub init : World
init = record {
  last_checking = 0;
  last_resp = none;
  last_fingerprint = none;
  next_round = 0;
  next_call = 0;
  rounds = [];
  settled = [];
  interruptions = [];
  waiting = [];
  actions = [];
}

unfoldable pub outcome_of : ℕ → List (ℕ × Outcome) → Option Outcome
outcome_of id [] = none
outcome_of id ((j, outcome) ∷ settled) = if beq j id then some outcome else outcome_of id settled

abbrev pub act : Action → World → World
act a w = record w { actions = a ∷ w.actions }

abbrev pub same_fingerprint : Option String → String → Bool
same_fingerprint none fingerprint = false
same_fingerprint (some last) fingerprint = last == fingerprint

-- The dedup window.
abbrev pub dedup_ms : ℕ
dedup_ms = 5000

abbrev pub shares : Question → World → Bool
shares q w =
    not (beq w.last_checking 0)
    && same_fingerprint w.last_fingerprint q.fingerprint
    && ltb q.now (w.last_checking + dedup_ms)

abbrev pub start_round : ℕ → Question → World → World
start_round c q w = record w {
  last_checking = q.now;
  last_fingerprint = some q.fingerprint;
  last_resp = some w.next_round;
  next_round = w.next_round + 1;
  rounds = (record { id = w.next_round; fingerprint = q.fingerprint; started = q.now }) ∷ w.rounds;
  waiting = leads c w.next_round ∷ w.waiting;
  actions = reports_checking ∷ w.actions;
}

-- From the fingerprint to the `await` of a promise.
abbrev pub ask : Option ℕ → ℕ → Question → World → World
ask none c q w = start_round c q w
ask (some id) c q w =
    if shares q w then record w { waiting = follows c id ∷ w.waiting } else start_round c q w

-- A check that is skipped. A listener that throws here rejects the promise of checkUpdate.
abbrev pub skip : Listener → ℕ → World → World
skip listener c w =
    if listener.throws_on_state
    then record w { actions = listener_rejects c ∷ skipped c ∷ w.actions }
    else record w { actions = returns c none ∷ skipped c ∷ w.actions }

unfoldable pub check_update_call : Env → Listener → Question → World → World
check_update_call env listener q w =
    let c = w.next_call in
    let w' = record w { next_call = w.next_call + 1 } in
    if env.is_dev && not env.debug
    then skip listener c w'
    else if env.is_web
    then skip listener c w'
    else if env.has_hook
    then record w' { waiting = hook c ∷ w.waiting }
    else ask w.last_resp c q w'

-- Behind the hook. A hook that throws rejects the promise of checkUpdate with its own error.
unfoldable pub after_hook : ℕ → Consent → Listener → Question → World → World
after_hook c allows listener q w = ask w.last_resp c q w
after_hook c declines listener q w = skip listener c w
after_hook c hook_throws listener q w = act (rejects c) w

abbrev pub fails_call : Env → ℕ → Action
fails_call env c = if env.throw_error then throws c else returns c none

-- The `catch` of a call: the listener is told of the error. If it throws, so does checkUpdate.
abbrev pub tell_error : Env → Listener → ℕ → List Action → List Action
tell_error env listener c actions =
    if listener.throws_on_error
    then listener_rejects c ∷ error c ∷ actions
    else fails_call env c ∷ error c ∷ actions

-- A call that shares the promise of an equal check. A listener that throws on the result is told again, of
-- its own error.
unfoldable pub after_shared : Env → Listener → ℕ → Outcome → World → World
unfolding resolve_check_result
after_shared env listener c (answered root) w =
    let result = resolve_check_result root env.identity in
    if listener.throws_on_state
    then record w {
      actions = tell_error env listener c (interrupted c ∷ completed c result ∷ w.actions);
    }
    else record w { actions = returns c (some result) ∷ completed c result ∷ w.actions }
after_shared env listener c failed w = record w { actions = tell_error env listener c w.actions }

abbrev pub is_unknown_bundle : Value → Bool
is_unknown_bundle (str s) = s == "unknownBundle"
is_unknown_bundle _ = false

abbrev pub is_slot : Option ℕ → ℕ → Bool
is_slot none id = false
is_slot (some k) id = beq k id

abbrev pub warn_bundle : Fields → List Action → List Action
warn_bundle root actions =
    if is_unknown_bundle (get "bundleStatus" root)
    then reports_unknown_bundle ∷ actions
    else actions

-- The `catch` of the call that made the promise: it clears the slot unless a newer check owns it.
abbrev pub catch_round : Env → Listener → ℕ → ℕ → World → World
catch_round env listener c id w =
    let actions = tell_error env listener c (reports_failure ∷ w.actions) in
    if is_slot w.last_resp id
    then record w { last_resp = none; last_fingerprint = none; actions = actions }
    else record w { actions = actions }

-- The call that made the promise. A listener that throws on the result leads to the `catch`, as a request
-- that failed does.
unfoldable pub after_round : Env → Listener → ℕ → ℕ → Outcome → World → World
unfolding resolve_check_result
after_round env listener c id (answered root) w =
    let result = resolve_check_result root env.identity in
    let told = completed c result ∷ warn_bundle root w.actions in
    if listener.throws_on_state
    then catch_round env listener c id
        (record w { interruptions = id ∷ w.interruptions; actions = interrupted c ∷ told })
    else record w { actions = returns c (some result) ∷ marks_completed ∷ told }
after_round env listener c id failed w = catch_round env listener c id w

-- Nothing happens before the promise has settled.
abbrev pub once_settled : Option Outcome → World → (Outcome → World) → World
once_settled none before go = before
once_settled (some outcome) before go = go outcome

unfoldable pub resume : Env → Consent → Listener → Question → Option Waiting → World → World → World
unfolding after_hook after_shared after_round outcome_of
resume env consent listener q none before w = before
resume env consent listener q (some (hook c)) before w = after_hook c consent listener q w
resume env consent listener q (some (leads c id)) before w =
    once_settled (outcome_of id w.settled) before
      (λ outcome. after_round env listener c id outcome w)
resume env consent listener q (some (follows c id)) before w =
    once_settled (outcome_of id w.settled) before (λ outcome. after_shared env listener c outcome w)

abbrev pub add_settled : Option Outcome → ℕ → Outcome → World → World
add_settled (some earlier) id outcome w = w
add_settled none id outcome w =
    if ltb id w.next_round then record w { settled = (id, outcome) ∷ w.settled } else w

-- A promise that was made settles once.
unfoldable pub settle : ℕ → Outcome → World → World
unfolding outcome_of
settle id outcome w = add_settled (outcome_of id w.settled) id outcome w

-- The entry at a place of `waiting` goes on once what it awaits has settled.
pub data Event : Type 0 where
  checks : Listener → Question → Event
  settles : ℕ → Outcome → Event
  resumes : ℕ → Consent → Listener → Question → Event

unfoldable pub step : Env → Event → World → World
unfolding check_update_call resume settle nth_of without_nth
step env (checks listener q) w = check_update_call env listener q w
step env (settles id outcome) w = settle id outcome w
step env (resumes k consent listener q) w =
    resume env consent listener q (nth_of k w.waiting) w
      (record w { waiting = without_nth k w.waiting })

unfoldable pub run : Env → List Event → World → World
unfolding step
run env [] w = w
run env (e ∷ es) w = run env es (step env e w)
