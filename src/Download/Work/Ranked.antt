-- ===== src/Download/Work/Ranked.antt =====
-- The rankings that the retry loop keeps (src/clientDownload.ts), and whether they are empty.
use react_native_pushy.Common.{
  String, Bool, true, false, not, ◌&&◌, ◌||◌, ◌==◌, Bool-cases, inl, inr, All, eq_iff, contains,
}
use react_native_pushy.Common.{Option, List, [], ◌∷◌, ◌++◌, ◌≡◌, refl, arith, subst}
use react_native_pushy.Flow.Urls.{has_scheme}
use react_native_pushy.Flow.Plan.{DownloadStrategyType}
use react_native_pushy.Flow.Plan.Laws.{is_empty_list}
use react_native_pushy.Download.Mirrors.{push_urls, push_url, rank_download_urls}
use react_native_pushy.Download.Work.{set_urls, get_urls, or_ranked, demote}

-- There is no empty ranking.
unfoldable pub has_mirrors : List (DownloadStrategyType × List String) → Bool
has_mirrors [] = true
has_mirrors ((t, urls) ∷ rest) = not (is_empty_list urls) && has_mirrors rest

push_urls-nonempty :
    (x : String) (ordered urls : List String) → is_empty_list (push_urls (x ∷ ordered) urls) ≡ false
unfolding push_urls
push_urls-nonempty x ordered [] = refl
push_urls-nonempty x ordered (url ∷ urls) =
    elim (Bool-cases (url == "" || contains url (x ∷ ordered))) [
      | inl e ↦ rw e (push_urls-nonempty x ordered urls)
      | inr e ↦ rw e (push_urls-nonempty x (ordered ++ url ∷ []) urls)
    ]

push_urls-first :
    (ordered urls : List String) (url : String)
    → (url == "") ≡ false
    → is_empty_list (push_urls ordered (url ∷ urls)) ≡ false
unfolding push_urls
push_urls-first [] urls url h = rw h (push_urls-nonempty url [] urls)
push_urls-first (x ∷ ordered) urls url h = push_urls-nonempty x ordered (url ∷ urls)

has_scheme-nonempty : (url : String) → has_scheme url ≡ true → (url == "") ≡ false
unfolding has_scheme
has_scheme-nonempty url h = elim (Bool-cases (url == "")) [
  | inl e ↦
      let none_left : has_scheme "" ≡ true =
        subst (λ u. has_scheme u ≡ true) ((eq_iff url "").0 e) h in
      ground arith
  | inr e ↦ e
]

pub rank_download_urls-nonempty :
    (winner : Option String) (urls : List String)
    → is_empty_list urls ≡ false
    → All (λ u. has_scheme u ≡ true) urls
    → is_empty_list (rank_download_urls winner urls) ≡ false
unfolding rank_download_urls
rank_download_urls-nonempty winner [] h all = ground arith
rank_download_urls-nonempty winner (url ∷ urls) h (one, all) =
    push_urls-first (push_url [] winner) urls url (has_scheme-nonempty url one)

pub get_urls-nonempty :
    (t : DownloadStrategyType) (fresh : List String)
    (ranked : List (DownloadStrategyType × List String))
    → has_mirrors ranked ≡ true
    → is_empty_list fresh ≡ false
    → is_empty_list (or_ranked (get_urls t ranked) fresh) ≡ false
unfolding has_mirrors get_urls
get_urls-nonempty t fresh [] h f = f
get_urls-nonempty t fresh ((s, urls) ∷ ranked) h f =
    ground (arith, get_urls-nonempty t fresh ranked)

pub set_urls-has_mirrors :
    (t : DownloadStrategyType) (urls : List String)
    (ranked : List (DownloadStrategyType × List String))
    → has_mirrors ranked ≡ true
    → is_empty_list urls ≡ false
    → has_mirrors (set_urls t urls ranked) ≡ true
unfolding has_mirrors set_urls
set_urls-has_mirrors t urls [] h f = ground arith
set_urls-has_mirrors t urls ((s, us) ∷ ranked) h f =
    ground (arith, set_urls-has_mirrors t urls ranked)

pub demote-has_mirrors :
    (t : DownloadStrategyType) (ordered : List String) (url : String)
    (ranked : List (DownloadStrategyType × List String))
    → has_mirrors ranked ≡ true
    → has_mirrors (demote t ordered url ranked) ≡ true
unfolding demote
demote-has_mirrors t [] url ranked h = h
demote-has_mirrors t (a ∷ []) url ranked h = h
demote-has_mirrors t (a ∷ b ∷ others) url ranked h = elim (Bool-cases (url == a)) [
  | inl e ↦ rw e (set_urls-has_mirrors t (b ∷ others ++ url ∷ []) ranked h refl)
  | inr e ↦ rw e h
]
