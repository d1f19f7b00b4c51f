-- ===== src/Download/Work/Progress.antt =====
-- What comes of the rounds of the retry loop (src/clientDownload.ts).
use react_native_pushy.Common.{
  ℕ, zero, suc, ◌+◌, String, Bool, true, false, not, ◌||◌, Bool-cases, inl, inr, All,
}
use react_native_pushy.Common.{Option, none, some, List, [], ◌∷◌, length, ◌≡◌, refl, arith}
use react_native_pushy.Errors.{Thrown}
use react_native_pushy.Flow.Plan.{DownloadStrategyType, DownloadAttempt}
use react_native_pushy.Flow.Plan.Laws.{IsUsable, is_empty_list}
use react_native_pushy.Flow.Plan.{is_none_left}
use react_native_pushy.Download.Work.Induction.{
  try_urls-Keeps, try_attempt-Keeps, try_attempts-Keeps,
}
use react_native_pushy.Download.Work.{
  Platform, Work, start_work, has_strategy, set_urls, catch_failure, after_download, stops,
  try_urls, ranking, try_attempt, try_attempts, all_exhausted, reset, round, retry, is_some,
}
use react_native_pushy.Download.Work.Ranked.{
  has_mirrors, rank_download_urls-nonempty, get_urls-nonempty, set_urls-has_mirrors,
  demote-has_mirrors,
}

abbrev pub HasMirrors : Work → Type 0
HasMirrors w = has_mirrors w.ranked ≡ true

after_download-HasMirrors :
    (platform : Platform) (strategy : DownloadStrategyType) (ordered : List String) (url : String)
    (outcome : Option Thrown) (w : Work)
    → stops strategy w ≡ false
    → HasMirrors w
    → HasMirrors (after_download platform strategy ordered url outcome w)
unfolding after_download catch_failure
after_download-HasMirrors platform strategy ordered url none w going h = h
after_download-HasMirrors platform strategy ordered url (some thrown) w going h =
    demote-has_mirrors strategy ordered url w.ranked h

-- Something came of the round: a success or an error.
abbrev pub IsSettled : Work → Type 0
IsSettled w = (is_some w.succeeded || is_some w.last_error) ≡ true

after_download-IsSettled :
    (platform : Platform) (strategy : DownloadStrategyType) (ordered : List String) (url : String)
    (outcome : Option Thrown) (w : Work)
    → IsSettled (after_download platform strategy ordered url outcome w)
unfolding after_download catch_failure
after_download-IsSettled platform strategy ordered url none w = refl
after_download-IsSettled platform strategy ordered url (some thrown) w = ground arith

after-IsSettled :
    (platform : Platform) (strategy : DownloadStrategyType) (ordered : List String) (url : String)
    (outcome : Option Thrown) (w : Work)
    → stops strategy w ≡ false
    → IsSettled w
    → IsSettled (after_download platform strategy ordered url outcome w)
after-IsSettled platform strategy ordered url outcome w going h =
    after_download-IsSettled platform strategy ordered url outcome w

try_urls-IsSettled :
    (platform : Platform) (strategy : DownloadStrategyType) (ordered urls : List String) (w : Work)
    → is_empty_list urls ≡ false
    → IsSettled (try_urls platform strategy ordered urls w)
unfolding try_urls
try_urls-IsSettled platform strategy ordered [] w h = ground arith
try_urls-IsSettled platform strategy ordered (url ∷ urls) w h =
    let outcome = platform.download (length w.calls) strategy url in
    let tried = after_download platform strategy ordered url outcome w in
    let settled = after_download-IsSettled platform strategy ordered url outcome w in
    elim (Bool-cases (stops strategy tried)) [
      | inl e ↦ rw e settled
      | inr e ↦ rw e (
          try_urls-Keeps IsSettled IsUsable platform (after-IsSettled platform) (λ a v q k. k)
            strategy ordered urls tried e settled)
    ]

ranking-nonempty :
    (platform : Platform) (attempt : DownloadAttempt) (w : Work)
    → IsUsable attempt
    → HasMirrors w
    → is_empty_list (ranking platform attempt w) ≡ false
unfolding ranking
ranking-nonempty platform attempt w (full, schemes) h =
    get_urls-nonempty attempt.strategy _ w.ranked h
      (rank_download_urls-nonempty (platform.winner attempt.strategy) attempt.urls full schemes)

rank-HasMirrors :
    (platform : Platform) (attempt : DownloadAttempt) (w : Work)
    → IsUsable attempt
    → HasMirrors w
    → HasMirrors
        (record w { ranked = set_urls attempt.strategy (ranking platform attempt w) w.ranked })
rank-HasMirrors platform attempt w q h =
    set_urls-has_mirrors attempt.strategy (ranking platform attempt w) w.ranked h
      (ranking-nonempty platform attempt w q h)

try_attempt-HasMirrors :
    (platform : Platform) (attempt : DownloadAttempt) (w : Work)
    → IsUsable attempt
    → HasMirrors w
    → HasMirrors (try_attempt platform attempt w)
try_attempt-HasMirrors platform =
    try_attempt-Keeps HasMirrors IsUsable platform (after_download-HasMirrors platform)
      (rank-HasMirrors platform)

round-HasMirrors :
    (platform : Platform) (attempts : List DownloadAttempt) (w : Work)
    → All IsUsable attempts
    → HasMirrors w
    → HasMirrors (round platform attempts w)
unfolding round
round-HasMirrors platform attempts w =
    try_attempts-Keeps HasMirrors IsUsable platform (after_download-HasMirrors platform)
      (rank-HasMirrors platform) attempts (record w { attempt_count = w.attempt_count + 1 })

-- Something came of the round, or a strategy is left to try in it.
abbrev pub IsLive : List DownloadAttempt → Work → Type 0
IsLive attempts w =
    (is_some w.succeeded || is_some w.last_error || not (all_exhausted attempts w)) ≡ true

skip-IsLive :
    (attempt : DownloadAttempt) (attempts : List DownloadAttempt) (w : Work)
    → stops attempt.strategy w ≡ true
    → IsLive (attempt ∷ attempts) w
    → IsLive attempts w
unfolding all_exhausted
skip-IsLive attempt attempts w e h = ground arith

settled-IsLive : (attempts : List DownloadAttempt) (w : Work) → IsSettled w → IsLive attempts w
settled-IsLive attempts w h = ground arith

try_attempt-IsLive :
    (platform : Platform) (attempt : DownloadAttempt) (attempts : List DownloadAttempt) (w : Work)
    → IsUsable attempt
    → HasMirrors w
    → IsLive (attempt ∷ attempts) w
    → IsLive attempts (try_attempt platform attempt w)
unfolding try_attempt
try_attempt-IsLive platform attempt attempts w q m h =
    elim (Bool-cases (stops attempt.strategy w)) [
      | inl e ↦ rw e (skip-IsLive attempt attempts w e h)
      | inr e ↦
          let ordered = ranking platform attempt w in
          rw e (
            settled-IsLive attempts _ (
              try_urls-IsSettled platform attempt.strategy ordered ordered
                (record w { ranked = set_urls attempt.strategy ordered w.ranked })
                (ranking-nonempty platform attempt w q m)))
    ]

try_attempts-IsSettled :
    (platform : Platform) (attempts : List DownloadAttempt) (w : Work)
    → All IsUsable attempts
    → HasMirrors w
    → IsLive attempts w
    → IsSettled (try_attempts platform attempts w)
unfolding try_attempts all_exhausted
try_attempts-IsSettled platform [] w qs m h = ground arith
try_attempts-IsSettled platform (attempt ∷ attempts) w (q, qs) m h =
    try_attempts-IsSettled platform attempts (try_attempt platform attempt w) qs
      (try_attempt-HasMirrors platform attempt w q m)
      (try_attempt-IsLive platform attempt attempts w q m h)

all_exhausted-same :
    (attempts : List DownloadAttempt) (v w : Work)
    → v.exhausted ≡ w.exhausted
    → all_exhausted attempts v ≡ all_exhausted attempts w
unfolding all_exhausted
all_exhausted-same [] v w h = refl
all_exhausted-same (a ∷ attempts) v w h = rw (all_exhausted-same attempts v w h, h) refl

exhausted_left-IsLive :
    (attempts : List DownloadAttempt) (w : Work)
    → all_exhausted attempts w ≡ false
    → IsLive attempts w
exhausted_left-IsLive attempts w h = ground arith

round-IsSettled :
    (platform : Platform) (attempts : List DownloadAttempt) (w : Work)
    → All IsUsable attempts
    → HasMirrors w
    → all_exhausted attempts w ≡ false
    → IsSettled (round platform attempts w)
unfolding round
round-IsSettled platform attempts w qs m left =
    let begun = record w { attempt_count = w.attempt_count + 1 } in
    try_attempts-IsSettled platform attempts begun qs m
      (exhausted_left-IsLive attempts begun (rw (all_exhausted-same attempts begun w refl) left))

or_false : (a b : Bool) → (a || b) ≡ false → b ≡ false
or_false a b h = ground arith

retry-IsSettled :
    (platform : Platform) (attempts : List DownloadAttempt) (retries : ℕ) (w : Work)
    → All IsUsable attempts
    → HasMirrors w
    → all_exhausted attempts w ≡ false
    → IsSettled (retry platform attempts retries w)
unfolding retry reset
retry-IsSettled platform attempts zero w qs m left = round-IsSettled platform attempts w qs m left
retry-IsSettled platform attempts (suc n) w qs m left =
    let done = round platform attempts w in
    elim (Bool-cases (is_some done.succeeded || all_exhausted attempts done)) [
      | inl e ↦ rw e (round-IsSettled platform attempts w qs m left)
      | inr e ↦ rw e (
          retry-IsSettled platform attempts n (reset done) qs
            (round-HasMirrors platform attempts w qs m)
            (rw (all_exhausted-same attempts (reset done) done refl)
              (or_false (is_some done.succeeded) (all_exhausted attempts done) e)))
    ]

-- A download whose attempts have mirrors to try, as those of every decided plan have, ends with a
-- success or with an error to report, whatever the number of retries.
pub retry-start_work-IsSettled :
    (platform : Platform) (attempts : List DownloadAttempt) (retries : ℕ)
    → is_none_left attempts ≡ false
    → All IsUsable attempts
    → IsSettled (retry platform attempts retries start_work)
unfolding start_work all_exhausted has_strategy has_mirrors
retry-start_work-IsSettled platform [] retries h qs = ground arith
retry-start_work-IsSettled platform (attempt ∷ attempts) retries h qs =
    retry-IsSettled platform (attempt ∷ attempts) retries start_work qs refl refl
