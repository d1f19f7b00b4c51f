-- ===== src/Download/Mirrors/Laws.antt =====
-- The ranking of mirrors (src/clientDownload.ts) and the race among them (src/utils.ts).
use react_native_pushy.Common.{
  ℕ, suc, ◌+◌, String, true, false, ◌||◌, ◌==◌, map, Bool-cases, inl, inr,
}
use react_native_pushy.Common.{
  Option, none, some, List, [], ◌∷◌, ◌++◌, length, contains, beq, if◌then◌else◌, ◌≡◌, ◌≢◌, refl,
  arith, IsDistinct, ◌⊎◌,
}
use react_native_pushy.Flow.Endpoints.{dedupe_from, usable, dedupe_endpoints}
use react_native_pushy.Flow.Endpoints.Laws.{dedupe_endpoints_lem}
use react_native_pushy.Common.{ap, get_or, All}
use react_native_pushy.Download.Mirrors.{
  starts_with, is_plain_http, is_protocol_downgrade, HeadResponse, ping, any_from, promise_any,
  test_urls, winner_of, push_url, push_urls, rank_download_urls,
}

push_urls-dedupe :
    (ordered urls : List String) → push_urls ordered urls ≡ dedupe_from ordered (map some urls)
unfolding push_urls dedupe_from
push_urls-dedupe ordered [] = refl
push_urls-dedupe ordered (url ∷ urls) = push_urls-dedupe (push_url ordered (some url)) urls

-- The ranking is the deduplication of the endpoint plan, applied to the winner and the mirrors.
rank_download_urls-dedupe :
    (winner : Option String) (url : String) (urls : List String)
    → rank_download_urls winner (url ∷ urls) ≡ dedupe_endpoints (winner ∷ map some (url ∷ urls))
unfolding rank_download_urls dedupe_endpoints dedupe_from
rank_download_urls-dedupe winner url urls = push_urls-dedupe (push_url [] winner) (url ∷ urls)

map-some : (urls : List String) → map usable (map some urls) ≡ urls
map-some [] = refl
map-some (url ∷ urls) = ap (λ us. url ∷ us) (map-some urls)

first-push_urls :
    (x d : String) (ordered urls : List String) → get_or (push_urls (x ∷ ordered) urls) 0 d ≡ x
unfolding push_urls
first-push_urls x d ordered [] = refl
first-push_urls x d ordered (url ∷ urls) =
    elim (Bool-cases (url == "" || contains url (x ∷ ordered))) [
      | inl e ↦ rw e (first-push_urls x d ordered urls)
      | inr e ↦ rw e (first-push_urls x d (ordered ++ url ∷ []) urls)
    ]

first-rank_download_urls :
    (winner url : String) (urls : List String)
    → (winner == "") ≡ false
    → get_or (rank_download_urls (some winner) (url ∷ urls)) 0 "" ≡ winner
unfolding rank_download_urls
first-rank_download_urls winner url urls h = rw h (first-push_urls winner "" [] (url ∷ urls))

-- The ranking holds the winner of the race and every mirror that is not empty, each once and nothing
-- else, and a winner that is not empty comes first.
rank_download_urls_lem :
    (winner s url : String) (urls : List String)
    → s ≢ ""
    → IsDistinct (rank_download_urls (some winner) (url ∷ urls))
      × (contains "" (rank_download_urls (some winner) (url ∷ urls)) ≡ false)
      × (contains s (rank_download_urls (some winner) (url ∷ urls))
          ≡ (winner == s || contains s (url ∷ urls)))
      × ((winner == "") ≡ true
          ⊎ (get_or (rank_download_urls (some winner) (url ∷ urls)) 0 "" ≡ winner))
rank_download_urls_lem winner s url urls h =
    let facts = dedupe_endpoints_lem (some winner ∷ some url ∷ map some urls) in
    rw rank_download_urls-dedupe (
      facts.0,
      facts.1,
      rw (facts.2 s h, map-some urls) refl,
      elim (Bool-cases (winner == "")) [
        | inl e ↦ inl e
        | inr e ↦ inr (
            rw (← rank_download_urls-dedupe (some winner) url urls)
              (first-rank_download_urls winner url urls e))
      ],
    )

abbrev pub first_answer : String → List (Option String) → String
first_answer url [] = url
first_answer url (none ∷ settled) = first_answer url settled
first_answer url (some answer ∷ settled) = if answer == "" then url else answer

later_count : (count total n : ℕ) → count + suc (suc n) ≡ total → beq (suc count) total ≡ false
later_count count total n h = ground arith

winner_of-any_from :
    (url : String) (total count : ℕ) (x : Option String) (settled : List (Option String))
    → count + length (x ∷ settled) ≡ total
    → winner_of url (any_from total count (x ∷ settled)) ≡ some (first_answer url (x ∷ settled))
unfolding winner_of any_from
winner_of-any_from url total count (some answer) settled h = refl
winner_of-any_from url total count none [] h = ground arith
winner_of-any_from url total count none (y ∷ settled) h =
    rw (later_count count total (length settled) h)
      (winner_of-any_from url total (suc count) y settled (omega arith))

some_left : (n : ℕ) → beq (suc n) 0 ≡ false
some_left n = ground arith

-- Once every ping has settled, in whatever order, the race has ended: with the first that succeeded,
-- or with the first mirror where none did.
test_urls-first_answer :
    (url : String) (urls : List String) (x : Option String) (settled : List (Option String))
    → length (x ∷ settled) ≡ length (url ∷ urls)
    → test_urls (url ∷ urls) (x ∷ settled) ≡ some (first_answer url (x ∷ settled))
unfolding test_urls promise_any
test_urls-first_answer url urls x settled h =
    rw (some_left (length urls))
      (winner_of-any_from url (length (url ∷ urls)) 0 x settled (omega (arith, h)))

abbrev pub ping_of : String × Option HeadResponse → Option String
ping_of p = ping p.0 p.1

abbrev pub IsHttps : String → Type 0
IsHttps url = starts_with "https:" url ≡ true

not_plain : (s : String) → starts_with "https:" s ≡ true → starts_with "http:" s ≡ false
unfolding starts_with
not_plain String.[] h = ground arith
not_plain (String.◌∷◌ a String.[]) h = ground arith
not_plain (String.◌∷◌ a (String.◌∷◌ b String.[])) h = ground arith
not_plain (String.◌∷◌ a (String.◌∷◌ b (String.◌∷◌ c String.[]))) h = ground arith
not_plain (String.◌∷◌ a (String.◌∷◌ b (String.◌∷◌ c (String.◌∷◌ d String.[])))) h = ground arith
not_plain (String.◌∷◌ a (String.◌∷◌ b (String.◌∷◌ c (String.◌∷◌ d (String.◌∷◌ e s))))) h =
    ground arith

ping-https :
    (url : String) (response : Option HeadResponse)
    → IsHttps url
    → is_plain_http (ping url response) ≡ false
unfolding ping is_protocol_downgrade
ping-https url none h = refl
ping-https url (some r) h = ground arith

any_from-step :
    (url : String) (total count : ℕ) (found : Option String) (settled : List (Option String))
    → IsHttps url
    → is_plain_http found ≡ false
    → is_plain_http (winner_of url (any_from total (suc count) settled)) ≡ false
    → is_plain_http (winner_of url (any_from total count (found ∷ settled))) ≡ false
unfolding any_from winner_of
any_from-step url total count (some answer) settled h one rest = elim (Bool-cases (answer == "")) [
  | inl e ↦ rw e (not_plain url h)
  | inr e ↦ rw e one
]
any_from-step url total count none settled h one rest = elim (Bool-cases (beq (suc count) total)) [
  | inl e ↦ rw e (not_plain url h)
  | inr e ↦ rw e rest
]

any_from-https :
    (url : String) (total count : ℕ) (answers : List (String × Option HeadResponse))
    → IsHttps url
    → All (λ answer. IsHttps answer.0) answers
    → is_plain_http (winner_of url (any_from total count (map ping_of answers))) ≡ false
unfolding any_from winner_of
any_from-https url total count [] h all = refl
any_from-https url total count (answer ∷ answers) h (one, all) =
    any_from-step url total count (ping_of answer) (map ping_of answers) h
      (ping-https answer.0 answer.1 one) (any_from-https url total (suc count) answers h all)

-- A race among https mirrors is never won by a plain http URL, whatever the mirrors answer.
pub test_urls-https :
    (url : String) (urls : List String) (answers : List (String × Option HeadResponse))
    → IsHttps url
    → All (λ answer. IsHttps answer.0) answers
    → is_plain_http (test_urls (url ∷ urls) (map ping_of answers)) ≡ false
unfolding test_urls promise_any
test_urls-https url urls answers h all =
    rw (some_left (length urls)) (any_from-https url (length (url ∷ urls)) 0 answers h all)
