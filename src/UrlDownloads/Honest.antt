-- ===== src/UrlDownloads/Honest.antt =====
-- web/lib/url-download-store.ts: what the progress bars show.
pub mod Steps
pub mod Reachable
use vidsilo.Base.{
  ℕ, ◌+◌, ◌≡◌, ◌≤◌, refl, inl, inr, Bool, true, false, not, ◌&&◌, ◌||◌, Option, none, some, List,
  [], ◌∷◌, ◌++◌, map, min, String, arith, eq_iff, if◌then◌else◌, ◌==◌, ltb, leb, Bool-cases,
  Option-cases, All, All-keep, All-append, any, find, keep, truthy, Item, absent, corrupt, stored,
  is_empty,
}
use vidsilo.UploadStore.Run.{percent}
use vidsilo.UrlDownloads.Job.{
  UrlDownloadStatus, Progress, at, indeterminate, UrlDownloadJob, UrlPatch, apply_url_patch,
  is_queued, is_downloading, is_done, recheck, is_recent_download, load_downloads,
}
use vidsilo.UrlDownloads.{
  Poller, idle, stuck, submitting, pausing, watching, resolving, Phase, submits, polls, Downloads,
  CheckResult, CheckCount, check_urls, take_results, new_download, accept_download, has_url,
  fresh_lines, update, persist_downloads, emit_downloads, remove_url_download, reset_idle_downloads,
  clear_url_downloads, clear_all_url_downloads, reload_downloads, mark_url_downloads_completed,
}
use vidsilo.UrlDownloads.Polling.{
  SubmitResult, ActiveRow, EntryState, set_poller, poll_round, submit_round, start_downloads,
  send_rename, submit_refused, submit_accepted, submit_answer, show_progress, row_of, tick_answer,
  continue_phase, entry_answer,
}
use vidsilo.UrlDownloads.Events.{
  UrlEdit, title, category, url_edit_patch, DownloadEvent, checked, edited, removed, dialog_opened,
  cleared, all_cleared, pause_over, started, reloaded, submit_answered, ticked, entry_answered,
  on_submit_answer, on_tick, on_entry_answer, on_pause_over, handle_download, run_downloads,
}

abbrev pub is_below : Progress → Bool
is_below (at n) = ltb n 100
is_below indeterminate = true

abbrev pub is_within : UrlDownloadStatus → Progress → Bool
is_within st (at n) = ltb n 100 || (leb n 100 && is_done st)
is_within st indeterminate = true

-- The progress of the job is less than 100, or it is 100 and the job is done.
abbrev pub IsHonest : UrlDownloadJob → Type 0
IsHonest j = is_within j.status j.progress ≡ true

abbrev pub AllHonest : List UrlDownloadJob → Type 0
AllHonest js = All (λ j. IsHonest j) js

abbrev pub HonestItem : Item (List UrlDownloadJob) → Type 0
HonestItem absent = Unit
HonestItem corrupt = Unit
HonestItem (stored js) = AllHonest js

-- The jobs called `i` show less than 100.
abbrev pub BelowAt : String → List UrlDownloadJob → Type 0
BelowAt i js = All (λ k. k.id ≡ i → is_below k.progress ≡ true) js

-- The job that is being submitted shows less than 100.
abbrev pub Awaited : Poller → List UrlDownloadJob → Type 0
Awaited (submitting j) js = BelowAt j.id js
Awaited _ js = Unit

-- The jobs are honest, the saved ones too.
pub record Fair (s : Downloads) : Type 0 where
  pub now : AllHonest s.jobs
  pub later : HonestItem s.saved

pub record Honest (s : Downloads) : Type 0 where
  pub now : AllHonest s.jobs
  pub later : HonestItem s.saved
  pub awaited : Awaited s.poller s.jobs

pub drop_awaited : {s : Downloads} → Honest s → Fair s
drop_awaited h = record { now = h.now; later = h.later }

pub All-map {ℓ m n} :
    {A : Type ℓ} (P : A → Type m) (Q : A → Type n) (f : A → A)
    → ((x : A) → P x → Q (f x))
    → (xs : List A) → All P xs
    → All Q (map f xs)
All-map P Q f g [] h = tt
All-map P Q f g (x ∷ xs) (h, hs) = (g x h, All-map P Q f g xs hs)

pub Awaited-keep :
    (b : Poller) (p : UrlDownloadJob → Bool) (js : List UrlDownloadJob)
    → Awaited b js
    → Awaited b (keep p js)
Awaited-keep (submitting j) p js h = All-keep _ p js h
Awaited-keep idle p js h = tt
Awaited-keep stuck p js h = tt
Awaited-keep (pausing j) p js h = tt
Awaited-keep (watching ph e j) p js h = tt
Awaited-keep (resolving ph e j) p js h = tt

pub Awaited-map :
    (b : Poller) (f : UrlDownloadJob → UrlDownloadJob)
    → ((k : UrlDownloadJob) → ((f k).id ≡ k.id) × ((f k).progress ≡ k.progress))
    → (js : List UrlDownloadJob) → Awaited b js
    → Awaited b (map f js)
Awaited-map (submitting j) f g js h =
    All-map _ _ f (λ k b e. rw (g k).1 (b (ground (arith, e, g k)))) js h
Awaited-map idle f g js h = tt
Awaited-map stuck f g js h = tt
Awaited-map (pausing j) f g js h = tt
Awaited-map (watching ph e j) f g js h = tt
Awaited-map (resolving ph e j) f g js h = tt

pub Awaited-snoc :
    (b : Poller) (js : List UrlDownloadJob) (k : UrlDownloadJob)
    → is_below k.progress ≡ true
    → Awaited b js
    → Awaited b (js ++ k ∷ [])
Awaited-snoc (submitting j) js k q h = All-append _ js _ h (λ _. q, tt)
Awaited-snoc idle js k q h = tt
Awaited-snoc stuck js k q h = tt
Awaited-snoc (pausing j) js k q h = tt
Awaited-snoc (watching ph e j) js k q h = tt
Awaited-snoc (resolving ph e j) js k q h = tt

pub Awaited-nil : (b : Poller) → Awaited b []
Awaited-nil (submitting j) = tt
Awaited-nil idle = tt
Awaited-nil stuck = tt
Awaited-nil (pausing j) = tt
Awaited-nil (watching ph e j) = tt
Awaited-nil (resolving ph e j) = tt

pub persist_downloads-Fair :
    (js : List UrlDownloadJob) (s : Downloads)
    → AllHonest js
    → HonestItem s.saved
    → Fair (persist_downloads (emit_downloads (record s { jobs = js })))
unfolding persist_downloads emit_downloads
persist_downloads-Fair js s h l = elim (Bool-cases s.writable) [
  | inl w ↦ rw (w, persist_downloads) (record { now = h; later = h })
  | inr w ↦ rw (w, persist_downloads) (record { now = h; later = l })
]

pub persist_downloads-Honest :
    (js : List UrlDownloadJob) (s : Downloads)
    → AllHonest js
    → HonestItem s.saved
    → Awaited s.poller js
    → Honest (persist_downloads (emit_downloads (record s { jobs = js })))
unfolding persist_downloads emit_downloads
persist_downloads-Honest js s h l a = elim (Bool-cases s.writable) [
  | inl w ↦ rw (w, persist_downloads) (record { now = h; later = h; awaited = a })
  | inr w ↦ rw (w, persist_downloads) (record { now = h; later = l; awaited = a })
]
