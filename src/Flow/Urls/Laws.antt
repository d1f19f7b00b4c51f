-- ===== src/Flow/Urls/Laws.antt =====
-- The shape of joined URLs (src/updateFlowCore.ts).
use text.Mathlib.TextLemmas.{cons-append}
use react_native_pushy.Common.{code, String, true, ◌&&◌, ◌==◌, ◌≡◌, refl, ◌≢◌}
use react_native_pushy.Common.{arith, List, [], ◌∷◌, map, some, All, eq_iff}
use react_native_pushy.Common.{Bool-cases, inl, inr, beq, length}
use react_native_pushy.Flow.Urls.{
  text_append, strip_slashes, scheme_rest, starts_with_slashes, has_scheme, join_url, join_urls,
}

starts_with_slashes-append :
    (s t : String) → starts_with_slashes s ≡ true → starts_with_slashes (text_append s t) ≡ true
unfolding starts_with_slashes
starts_with_slashes-append (String.◌∷◌ a (String.◌∷◌ b s)) t h = rw (cons-append, cons-append) h
starts_with_slashes-append String.[] t h = cc
starts_with_slashes-append (String.◌∷◌ a String.[]) t h = cc

scheme_rest-append : (s t : String) → scheme_rest s ≡ true → scheme_rest (text_append s t) ≡ true
unfolding scheme_rest
scheme_rest-append String.[] t h = cc
scheme_rest-append (String.◌∷◌ c s) t h =
    rw cons-append (ground (arith, scheme_rest-append s t, starts_with_slashes-append s t))

has_scheme-append : (s t : String) → has_scheme s ≡ true → has_scheme (text_append s t) ≡ true
unfolding has_scheme
has_scheme-append String.[] t h = cc
has_scheme-append (String.◌∷◌ c s) t h = rw cons-append (ground (arith, scheme_rest-append s t))

has_scheme-https : has_scheme "https://" ≡ true
unfolding has_scheme
has_scheme-https = refl

has_scheme-join_url : (file_name path : String) → has_scheme (join_url file_name path) ≡ true
unfolding join_url
has_scheme-join_url file_name path = elim (Bool-cases (has_scheme (strip_slashes path))) [
  | inl explicit ↦ rw explicit (has_scheme-append _ _ explicit)
  | inr bare ↦ rw bare (has_scheme-append _ _ (has_scheme-append _ _ has_scheme-https))
]

All-map-join_url :
    (file_name : String) (paths : List String)
    → All (λ u. has_scheme u ≡ true) (map (join_url file_name) paths)
      × (length (map (join_url file_name) paths) ≡ length paths)
All-map-join_url file_name [] = (tt, refl)
All-map-join_url file_name (p ∷ ps) =
    let (schemes, lengths) = All-map-join_url file_name ps in
    ((has_scheme-join_url file_name p, schemes), omega arith)

-- Whenever URLs are joined at all, the file name is not empty, there is one URL for each mirror
-- path, and every URL names its scheme explicitly (https is supplied where the path has none).
pub join_urls_lem :
    (paths : List String) (file_name : String) (urls : List String)
    → join_urls paths file_name ≡ some urls
    → (file_name ≢ "") × (length urls ≡ length paths) × All (λ u. has_scheme u ≡ true) urls
unfolding join_urls
join_urls_lem paths file_name urls h = elim (Bool-cases (file_name == "")) [
  | inl none_sent ↦ absurd (ground (arith))
  | inr sent ↦
      let same : map (join_url file_name) paths ≡ urls = ground arith in
      let (schemes, lengths) = All-map-join_url file_name paths in
      rw (← same) (ground (arith, eq_iff file_name ""), lengths, schemes)
]

strip_slashes-append : (s : String) → strip_slashes (text_append s "/") ≡ strip_slashes s
unfolding strip_slashes
strip_slashes-append String.[] = refl
strip_slashes-append (String.◌∷◌ c s) = rw cons-append (rw (strip_slashes-append s))

strip_slashes_idem : (s : String) → strip_slashes (strip_slashes s) ≡ strip_slashes s
unfolding strip_slashes
strip_slashes_idem String.[] = refl
strip_slashes_idem (String.◌∷◌ c s) =
    elim (Bool-cases (strip_slashes s == "" && beq (code c) b'/')) [
      | inl dropped ↦ rw dropped refl
      | inr kept ↦ rw kept (rw (strip_slashes_idem s) (rw kept refl))
    ]

-- A mirror path joins to the same URL with one more trailing slash, and with all of them removed.
join_url-trailing :
    (file_name path : String)
    → (join_url file_name (text_append path "/") ≡ join_url file_name path)
      × (join_url file_name (strip_slashes path) ≡ join_url file_name path)
unfolding join_url
join_url-trailing file_name path = (rw strip_slashes-append, rw strip_slashes_idem)
