-- ===== src/Check/Laws.antt =====
-- What the remote endpoint lists and the answers of a check request (src/clientCheck.ts) can hold.
use react_native_pushy.Common.{
  ℕ, suc, ◌≤◌, String, Bool, true, false, ◌||◌, ◌==◌, Option, none, some, List, [], ◌∷◌, map,
  length, length-take-le, ◌≡◌, ◌≢◌, refl, sym, subst, ◌∙◌, ◌⊎◌, arith, Bool-cases, Option-cases,
  inl, inr, contains, IsDistinct, eq_iff,
}
use react_native_pushy.Common.Text.{units}
use react_native_pushy.Json.{Value, undef, null, bool, num, str, arr, obj, Items, no_items, item}
use react_native_pushy.Flow.Endpoints.{dedupe_endpoints}
use react_native_pushy.Flow.Endpoints.Laws.{offers, dedupe_endpoints_lem}
use react_native_pushy.Flow.Verdict.{is_valid_check_result}
use react_native_pushy.Download.Mirrors.{
  starts_with, Settled, pending, rejected, resolved, any_from, promise_any,
}
use react_native_pushy.Check.{
  Response, Reply, unreachable, responds, queried_list, https_only, remote_of, get_remote_endpoints,
  unreadable, http_status, invalid_response, CheckAnswer, verdict, fails, max_http_error_text,
  http_failure, verdict_of, request_check_result,
}

-- Whether the text is an item.
unfoldable pub lists_text : String → Items → Bool
lists_text s no_items = false
lists_text s (item (str t) vs) = (t == s) || lists_text s vs
lists_text s (item v vs) = lists_text s vs

-- Whether a reply that is a list, of a successful response, has the text.
unfoldable pub answered_with : String → List Reply → Bool
answered_with s [] = false
answered_with s (reply ∷ replies) =
    elim (queried_list reply) [ none ↦ false | some items ↦ lists_text s items ]
    || answered_with s replies

offers-https_only :
    (s : String) (items : Items)
    → offers s (https_only items) ≡ true
    → (starts_with "https://" s ≡ true) × (lists_text s items ≡ true)
unfolding https_only lists_text
offers-https_only s no_items h = cc
offers-https_only s (item (str t) vs) h = elim (Bool-cases (starts_with "https://" t)) [
  | inl secure ↦ elim (Bool-cases (t == s)) [
    | inl same ↦ (
      subst (λ u. starts_with "https://" u ≡ true) ((eq_iff t s).0 same) secure,
      ground (arith, same),
    )
    | inr other ↦
        let rest = offers-https_only s vs (ground (arith, h, secure, other)) in
        (rest.0, ground (arith, rest.1))
  ]
  | inr plain ↦
      let rest = offers-https_only s vs (ground (arith, h, plain)) in
      (rest.0, ground (arith, rest.1))
]
offers-https_only s (item undef vs) h = offers-https_only s vs h
offers-https_only s (item null vs) h = offers-https_only s vs h
offers-https_only s (item (bool v) vs) h = offers-https_only s vs h
offers-https_only s (item (num v) vs) h = offers-https_only s vs h
offers-https_only s (item (arr v) vs) h = offers-https_only s vs h
offers-https_only s (item (obj v) vs) h = offers-https_only s vs h

answered_with-any_from :
    (s : String) (total count : ℕ) (replies : List Reply) (items : Items)
    → any_from total count (map queried_list replies) ≡ resolved items
    → lists_text s items ≡ true
    → answered_with s replies ≡ true
unfolding any_from answered_with
answered_with-any_from s total count [] items h q = cc
answered_with-any_from s total count (reply ∷ replies) items h q =
    elim (Option-cases (queried_list reply)) [
      | inr (given, e) ↦ ground (arith, h, q, e)
      | inl e ↦ ground (arith, h, q, e, answered_with-any_from s total (suc count) replies items)
    ]

-- Endpoints over TLS, each once, from the list of a successful response.
abbrev pub IsRemote : List Reply → List String → Type 0
IsRemote replies endpoints =
    IsDistinct endpoints
    × ((s : String)
        → contains s endpoints ≡ true
        → (starts_with "https://" s ≡ true) × (answered_with s replies ≡ true))

the_same : (xs ys : List String) → ◌≡◌ {A = Option (List String)} (some xs) (some ys) → xs ≡ ys
the_same xs ys h = cc

IsRemote-dedupe :
    (replies : List Reply) (items : Items)
    → ((s : String) → lists_text s items ≡ true → answered_with s replies ≡ true)
    → IsRemote replies (dedupe_endpoints (https_only items))
IsRemote-dedupe replies items given =
    let (distinct, full, same) = dedupe_endpoints_lem (https_only items) in
    (
      distinct,
      λ s inside.
          let known : s ≢ "" = λ e. absurd (
            ground (
              arith,
              full,
              subst (λ u. contains u (dedupe_endpoints (https_only items)) ≡ true) e inside,
            )) in
          let (secure, listed) = offers-https_only s items (sym (same s known) ∙ inside) in
          (secure, given s listed),
    )

IsRemote-remote_of :
    (replies : List Reply) (settled : Settled Items) (endpoints : List String)
    → ((items : Items) (s : String)
        → settled ≡ resolved items
        → lists_text s items ≡ true
        → answered_with s replies ≡ true)
    → remote_of settled ≡ some endpoints
    → IsRemote replies endpoints
unfolding remote_of
IsRemote-remote_of replies pending endpoints given h = cc
IsRemote-remote_of replies rejected endpoints given h =
    subst (IsRemote replies) (the_same [] endpoints h) (tt, λ s inside. cc)
IsRemote-remote_of replies (resolved items) endpoints given h =
    subst (IsRemote replies) (the_same (dedupe_endpoints (https_only items)) endpoints h)
      (IsRemote-dedupe replies items (λ s listed. given items s refl listed))

-- When the query URLs have come to a list of endpoints, each of its endpoints begins with https:// in
-- any case of its letters, stands in it once, and is an item of the list that a successful response
-- gave: error pages and texts that are no list add nothing.
pub get_remote_endpoints-https :
    (urls : List String) (replies : List Reply) (endpoints : List String)
    → get_remote_endpoints urls replies ≡ some endpoints
    → IsRemote replies endpoints
unfolding get_remote_endpoints promise_any
get_remote_endpoints-https [] replies endpoints h =
    IsRemote-remote_of replies rejected endpoints (λ items s e listed. cc) h
get_remote_endpoints-https (url ∷ urls) replies endpoints h =
    IsRemote-remote_of replies (promise_any (length (url ∷ urls)) (map queried_list replies))
      endpoints
      (λ items s e listed.
        answered_with-any_from s (length (url ∷ urls)) 0 replies items (ground (arith, e)) listed)
      h

-- What an answer says of the reply that it was read from.
abbrev pub Judges : Reply → CheckAnswer → Type 0
Judges reply (verdict fs) =
    (r : Response) × (reply ≡ responds r)
    × (r.ok ≡ true)
    × (r.json ≡ some (obj fs))
    × (is_valid_check_result (obj fs) ≡ true)
Judges reply (fails (http_status status text)) =
    (r : Response) × (reply ≡ responds r)
    × (r.ok ≡ false)
    × (r.status ≡ status)
    × (length text ≤ max_http_error_text)
Judges reply (fails invalid_response) =
    (r : Response) × (v : Value) × (reply ≡ responds r)
    × (r.ok ≡ true)
    × (r.json ≡ some v)
    × (is_valid_check_result v ≡ false)
Judges reply (fails unreadable) =
    (reply ≡ unreachable)
    ⊎ ((r : Response) × (reply ≡ responds r)
        × (((r.ok ≡ true) × (r.json ≡ none)) ⊎ ((r.ok ≡ false) × (r.text ≡ none))))

Judges-verdict_of :
    (r : Response)
    → r.ok ≡ true
    → (json : Option Value) → r.json ≡ json
    → Judges (responds r) (verdict_of json)
unfolding verdict_of is_valid_check_result
Judges-verdict_of r ok none e = inr (r, refl, inl (ok, e))
Judges-verdict_of r ok (some (obj fs)) e = elim (Bool-cases (is_valid_check_result (obj fs))) [
  | inl valid ↦ rw valid (r, refl, ok, e, valid)
  | inr bad ↦ rw bad (r, obj fs, refl, ok, e, bad)
]
Judges-verdict_of r ok (some undef) e = (r, undef, refl, ok, e, refl)
Judges-verdict_of r ok (some null) e = (r, null, refl, ok, e, refl)
Judges-verdict_of r ok (some (bool b)) e = (r, bool b, refl, ok, e, refl)
Judges-verdict_of r ok (some (num b)) e = (r, num b, refl, ok, e, refl)
Judges-verdict_of r ok (some (str b)) e = (r, str b, refl, ok, e, refl)
Judges-verdict_of r ok (some (arr b)) e = (r, arr b, refl, ok, e, refl)

Judges-http_failure :
    (r : Response)
    → r.ok ≡ false
    → (text : Option String) → r.text ≡ text
    → Judges (responds r) (fails (http_failure r.status text))
Judges-http_failure r bad none e = inr (r, refl, inr (bad, e))
Judges-http_failure r bad (some text) e =
    (r, refl, bad, refl, length-take-le max_http_error_text (units text))

-- A check request gives a verdict exactly from a successful response whose JSON has the shape of one;
-- every other reply is a failure, so that the fallback goes on: an HTTP error with its status and at
-- most 200 code units of its text, a 2xx that is no verdict, or a reply that cannot be read.
Judges-request_check_result : (reply : Reply) → Judges reply (request_check_result reply)
unfolding request_check_result
Judges-request_check_result unreachable = inl refl
Judges-request_check_result (responds r) = elim (Bool-cases r.ok) [
  | inl ok ↦ simp ok (Judges-verdict_of r ok r.json refl)
  | inr bad ↦ simp bad (Judges-http_failure r bad r.text refl)
]
