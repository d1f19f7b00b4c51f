-- ===== src/Download/Work/Induction.antt =====
-- Induction over the loop of a download: what one download, a new ranking, a new round and the reset
-- of a retry keep, the whole loop keeps.
use react_native_pushy.Common.{ℕ, zero, suc, ◌+◌, String, Bool, true, false, ◌||◌}
use react_native_pushy.Common.{Option, List, [], ◌∷◌, length, if◌then◌else◌, ◌≡◌, refl, arith}
use react_native_pushy.Common.{All}
use react_native_pushy.Errors.{Thrown}
use react_native_pushy.Flow.Plan.{DownloadStrategyType, DownloadAttempt}
use react_native_pushy.Download.Work.{
  Platform, Work, after_download, stops, try_urls, ranking, try_attempt, try_attempts, set_urls,
  all_exhausted, reset, round, retry, is_some,
}

module _ (P : Work → Type 0) (Q : DownloadAttempt → Type 0) (platform : Platform)
    (after : (strategy : DownloadStrategyType) (ordered : List String) (url : String)
        (outcome : Option Thrown) (w : Work)
      → stops strategy w ≡ false
      → P w
      → P (after_download platform strategy ordered url outcome w))
    (rank : (attempt : DownloadAttempt) (w : Work)
      → Q attempt
      → P w
      → P (record w {
        ranked = set_urls attempt.strategy (ranking platform attempt w) w.ranked;
      })) where
  if-Keeps : (b : Bool) (u v : Work) → P u → (b ≡ false → P v) → P (if b then u else v)
  if-Keeps true u v h k = h
  if-Keeps false u v h k = k refl

  pub try_urls-Keeps :
      (strategy : DownloadStrategyType) (ordered urls : List String) (w : Work)
      → stops strategy w ≡ false
      → P w
      → P (try_urls platform strategy ordered urls w)
  unfolding try_urls
  try_urls-Keeps strategy ordered [] w going h = h
  try_urls-Keeps strategy ordered (url ∷ urls) w going h =
      let outcome = platform.download (length w.calls) strategy url in
      let tried = after_download platform strategy ordered url outcome w in
      let kept = after strategy ordered url outcome w going h in
      if-Keeps (stops strategy tried) tried (try_urls platform strategy ordered urls tried) kept
        (λ on. try_urls-Keeps strategy ordered urls tried on kept)

  pub try_attempt-Keeps :
      (attempt : DownloadAttempt) (w : Work) → Q attempt → P w → P (try_attempt platform attempt w)
  unfolding try_attempt
  try_attempt-Keeps attempt w q h =
      let ordered = ranking platform attempt w in
      let ranked = set_urls attempt.strategy ordered w.ranked in
      if-Keeps (stops attempt.strategy w) w
        (try_urls platform attempt.strategy ordered ordered (record w { ranked = ranked })) h
        (λ on.
          try_urls-Keeps attempt.strategy ordered ordered (record w { ranked = ranked }) on
            (rank attempt w q h))

  pub try_attempts-Keeps :
      (attempts : List DownloadAttempt) (w : Work)
      → All Q attempts
      → P w
      → P (try_attempts platform attempts w)
  unfolding try_attempts
  try_attempts-Keeps [] w qs h = h
  try_attempts-Keeps (attempt ∷ attempts) w (q, qs) h =
      try_attempts-Keeps attempts (try_attempt platform attempt w) qs
        (try_attempt-Keeps attempt w q h)

  module _ (again : (w : Work) → P w → P (record w { attempt_count = w.attempt_count + 1 }))
      (wipe : (w : Work) → is_some w.succeeded ≡ false → P w → P (reset w)) where
    pub round-Keeps :
        (attempts : List DownloadAttempt) (w : Work)
        → All Q attempts
        → P w
        → P (round platform attempts w)
    unfolding round
    round-Keeps attempts w qs h =
        try_attempts-Keeps attempts (record w { attempt_count = w.attempt_count + 1 }) qs
          (again w h)

    or-first : (a b : Bool) → (a || b) ≡ false → a ≡ false
    or-first a b h = ground arith

    pub retry-Keeps :
        (attempts : List DownloadAttempt) (retries : ℕ) (w : Work)
        → All Q attempts
        → P w
        → P (retry platform attempts retries w)
    unfolding retry
    retry-Keeps attempts zero w qs h = round-Keeps attempts w qs h
    retry-Keeps attempts (suc n) w qs h =
        let done = round platform attempts w in
        let kept = round-Keeps attempts w qs h in
        if-Keeps (is_some done.succeeded || all_exhausted attempts done) done
          (retry platform attempts n (reset done)) kept
          (λ on.
            retry-Keeps attempts n (reset done) qs
              (wipe done (or-first (is_some done.succeeded) (all_exhausted attempts done) on) kept))
