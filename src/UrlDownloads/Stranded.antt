-- ===== src/UrlDownloads/Stranded.antt =====
-- web/lib/url-download-store.ts: downloads after a reload.
use vidsilo.Base.{
  ℕ, ◌≡◌, refl, inl, inr, Bool, false, ◌&&◌, ◌||◌, none, List, [], ◌∷◌, map, arith, Bool-cases, All,
  find, keep, truthy, Item, absent, corrupt, stored,
}
use vidsilo.UrlDownloads.Job.{
  UrlDownloadJob, is_queued, is_downloading, recheck, is_recent_download, load_downloads,
}
use vidsilo.UrlDownloads.{idle, Downloads, reload_downloads, mark_url_downloads_completed}
use vidsilo.UrlDownloads.Polling.{start_downloads, submit_round, poll_round}

-- No job is queued, and none is downloading.
abbrev Parked : List UrlDownloadJob → Type 0
Parked js = All (λ j. (is_queued j.status || is_downloading j.status) ≡ false) js

nothing_found {ℓ} :
    {A : Type ℓ} (p : A → Bool) (xs : List A) → All (λ x. p x ≡ false) xs → find p xs ≡ none
nothing_found p [] h = refl
nothing_found p (x ∷ xs) (h, hs) = ground (arith, h, nothing_found p xs hs)

All-weaken {ℓ} :
    {A : Type ℓ} (p q : A → Bool)
    → ((x : A) → p x ≡ false → q x ≡ false)
    → (xs : List A) → All (λ x. p x ≡ false) xs
    → All (λ x. q x ≡ false) xs
All-weaken p q f [] h = tt
All-weaken p q f (x ∷ xs) (h, hs) = (f x h, All-weaken p q f xs hs)

start_downloads_of_Parked :
    (now : ℕ) (s : Downloads)
    → Parked s.jobs
    → s.poller ≡ idle
    → ((start_downloads now s).jobs ≡ s.jobs) × ((start_downloads now s).poller ≡ idle)
unfolding start_downloads submit_round poll_round mark_url_downloads_completed
start_downloads_of_Parked now s h b = ground (
  arith,
  b,
  nothing_found (λ j. is_queued j.status) s.jobs
      (All-weaken (λ j. is_queued j.status || is_downloading j.status) (λ j. is_queued j.status)
        (λ j e. ground (arith, e)) s.jobs h),
  nothing_found (λ j. is_downloading j.status && truthy j.entry_id) s.jobs
      (All-weaken (λ j. is_queued j.status || is_downloading j.status)
        (λ j. is_downloading j.status && truthy j.entry_id) (λ j e. ground (arith, e)) s.jobs h),
)

recheck_parks :
    (j : UrlDownloadJob)
    → (is_queued (recheck j).status || is_downloading (recheck j).status) ≡ false
unfolding recheck
recheck_parks j = ground arith

load_downloads-Parked : (now : ℕ) (it : Item (List UrlDownloadJob)) → Parked (load_downloads now it)
unfolding load_downloads
load_downloads-Parked now absent = tt
load_downloads-Parked now corrupt = tt
load_downloads-Parked now (stored js) = go js
  where
    go : (ks : List UrlDownloadJob) → Parked (keep (is_recent_download now) (map recheck ks))
    go [] = tt
    go (j ∷ ks) = elim (Bool-cases (is_recent_download now (recheck j))) [
      | inl r ↦ rw r (recheck_parks j, go ks)
      | inr r ↦ rw r (go ks)
    ]

-- After a reload of the page `startDownloads` does nothing to any job that was there before: it
-- neither submits one that was queued, nor follows one that was being downloaded, and ends at once.
pub start_downloads-reload :
    (now later : ℕ) (s : Downloads)
    → let t = reload_downloads now s in
      ((start_downloads later t).jobs ≡ t.jobs) × ((start_downloads later t).poller ≡ idle)
unfolding reload_downloads
start_downloads-reload now later s =
    start_downloads_of_Parked later _ (load_downloads-Parked now s.saved) refl
