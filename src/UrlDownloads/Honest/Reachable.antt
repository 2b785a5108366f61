-- ===== src/UrlDownloads/Honest/Reachable.antt =====
-- web/lib/url-download-store.ts: the progress bars over any history of the queue of downloads.
use vidsilo.Base.{
  All-append, All-keep, ℕ, ◌≡◌, refl, subst, inl, inr, Option, none, some, List, [], ◌∷◌, map,
  String, arith, Bool-cases, Item, absent, corrupt, stored, is_empty,
}
use vidsilo.UrlDownloads.Job.{
  UrlDownloadJob, apply_url_patch, recheck, is_recent_download, load_downloads,
}
use vidsilo.UrlDownloads.{
  Poller, idle, stuck, submitting, pausing, watching, resolving, Downloads, CheckResult, CheckCount,
  check_urls, take_results, new_download, accept_download, has_url, fresh_lines, update,
  remove_url_download, reset_idle_downloads, clear_url_downloads, clear_all_url_downloads,
  reload_downloads,
}
use vidsilo.UrlDownloads.Polling.{SubmitResult, ActiveRow, EntryState, set_poller, start_downloads}
use vidsilo.UrlDownloads.Events.{
  UrlEdit, title, category, url_edit_patch, DownloadEvent, checked, edited, removed, dialog_opened,
  cleared, all_cleared, pause_over, started, reloaded, submit_answered, ticked, entry_answered,
  on_submit_answer, on_tick, on_entry_answer, on_pause_over, handle_download, run_downloads,
}
use vidsilo.UrlDownloads.Honest.{
  IsHonest, AllHonest, HonestItem, Awaited, Honest, drop_awaited, All-map, Awaited-keep,
  Awaited-map, Awaited-snoc, Awaited-nil, persist_downloads-Honest,
}
use vidsilo.UrlDownloads.Honest.Steps.{
  submit_round-Honest, submit_answer-Honest, tick_answer-Honest, entry_answer-Honest,
}

start_downloads-Honest : (now : ℕ) (s : Downloads) → Honest s → Honest (start_downloads now s)
unfolding start_downloads
start_downloads-Honest now s h = ground (arith, h, submit_round-Honest now s (drop_awaited h))

on_pause_over-Honest : (b : Poller) (s : Downloads) → Honest s → Honest (on_pause_over b s)
unfolding on_pause_over set_poller
on_pause_over-Honest (pausing j) s h = record { now = h.now; later = h.later; awaited = tt }
on_pause_over-Honest idle s h = h
on_pause_over-Honest stuck s h = h
on_pause_over-Honest (submitting j) s h = h
on_pause_over-Honest (watching ph e j) s h = h
on_pause_over-Honest (resolving ph e j) s h = h

on_submit_answer-Honest :
    (now : ℕ) (answer : Option (List SubmitResult)) (b : Poller) (s : Downloads)
    → s.poller ≡ b
    → Honest s
    → Honest (on_submit_answer now answer b s)
unfolding on_submit_answer
on_submit_answer-Honest now answer (submitting j) s e h =
    submit_answer-Honest now answer j s (subst (λ b. Awaited b s.jobs) e h.awaited) (drop_awaited h)
on_submit_answer-Honest now answer idle s e h = h
on_submit_answer-Honest now answer stuck s e h = h
on_submit_answer-Honest now answer (pausing j) s e h = h
on_submit_answer-Honest now answer (watching ph x j) s e h = h
on_submit_answer-Honest now answer (resolving ph x j) s e h = h

on_tick-Honest :
    (rows : Option (List ActiveRow)) (b : Poller) (s : Downloads)
    → s.poller ≡ b
    → Honest s
    → Honest (on_tick rows b s)
unfolding on_tick
on_tick-Honest rows (watching ph x j) s e h = tick_answer-Honest rows ph x j s e h
on_tick-Honest rows idle s e h = h
on_tick-Honest rows stuck s e h = h
on_tick-Honest rows (submitting j) s e h = h
on_tick-Honest rows (pausing j) s e h = h
on_tick-Honest rows (resolving ph x j) s e h = h

on_entry_answer-Honest :
    (now : ℕ) (answer : Option EntryState) (b : Poller) (s : Downloads)
    → Honest s
    → Honest (on_entry_answer now answer b s)
unfolding on_entry_answer
on_entry_answer-Honest now answer (resolving ph x j) s h =
    entry_answer-Honest now answer ph j s (drop_awaited h)
on_entry_answer-Honest now answer idle s h = h
on_entry_answer-Honest now answer stuck s h = h
on_entry_answer-Honest now answer (submitting j) s h = h
on_entry_answer-Honest now answer (pausing j) s h = h
on_entry_answer-Honest now answer (watching ph x j) s h = h

edit-Honest :
    (id : String) (e : UrlEdit) (s : Downloads) → Honest s → Honest (update id (url_edit_patch e) s)
unfolding update url_edit_patch apply_url_patch
edit-Honest id (title v) s h =
    persist_downloads-Honest _ s (All-map _ _ _ (λ k q. ground (arith, q)) s.jobs h.now) h.later
      (Awaited-map s.poller _ (λ k. ground arith) s.jobs h.awaited)
edit-Honest id (category v) s h =
    persist_downloads-Honest _ s (All-map _ _ _ (λ k q. ground (arith, q)) s.jobs h.now) h.later
      (Awaited-map s.poller _ (λ k. ground arith) s.jobs h.awaited)

recheck-Honest : (j : UrlDownloadJob) → IsHonest j → IsHonest (recheck j)
unfolding recheck
recheck-Honest j h = ground (arith, h)

load_downloads-Honest :
    (now : ℕ) (it : Item (List UrlDownloadJob)) → HonestItem it → AllHonest (load_downloads now it)
unfolding load_downloads
load_downloads-Honest now absent h = tt
load_downloads-Honest now corrupt h = tt
load_downloads-Honest now (stored js) h =
    All-keep _ (is_recent_download now) (map recheck js) (All-map _ _ recheck recheck-Honest js h)

module _ (uuid : ℕ → String) where
  accept_download-Honest :
      (r : CheckResult) (s : Downloads) → Honest s → Honest (accept_download uuid r s)
  unfolding accept_download new_download
  accept_download-Honest r s h = record {
    now = All-append _ s.jobs _ h.now (refl, tt);
    later = h.later;
    awaited = Awaited-snoc s.poller s.jobs _ refl h.awaited;
  }

  take_results-Honest :
      (rs : List CheckResult) (urls : List String) (s : Downloads) (c : CheckCount)
      → Honest s
      → Honest (take_results uuid rs urls (s, c)).0
  unfolding take_results
  take_results-Honest [] urls s c h = h
  take_results-Honest (r ∷ rs) urls s c h = elim (Bool-cases r.is_ok) [
    | inr k ↦ rw k (take_results-Honest rs urls s _ h)
    | inl k ↦ elim (Bool-cases (has_url r.url urls)) [
      | inl m ↦ rw (k, m) (take_results-Honest rs urls s c h)
      | inr m ↦ rw (k, m) (take_results-Honest rs _ _ _ (accept_download-Honest _ s h))
    ]
  ]

  check_urls-Honest :
      (lines : List String) (answer : Option (List CheckResult)) (s : Downloads)
      → Honest s
      → Honest (check_urls uuid lines answer s).0
  unfolding check_urls
  check_urls-Honest lines none s h = elim (Bool-cases (is_empty (fresh_lines lines))) [
    | inl k ↦ rw (k, check_urls) h
    | inr k ↦ rw (k, check_urls) h
  ]
  check_urls-Honest lines (some rs) s h =
      let c : CheckCount = record { added = 0; failed = 0 } in
      let urls = map (λ j. j.url) s.jobs in
      let t = take_results-Honest rs urls s c h in
      elim (Bool-cases (is_empty (fresh_lines lines))) [
        | inl k ↦ rw (k, check_urls) h
        | inr k ↦
            rw (k, check_urls)
              (persist_downloads-Honest _ (take_results uuid rs urls (s, c)).0 t.now t.later
                t.awaited)
      ]

  handle_download-Honest :
      (e : DownloadEvent) (s : Downloads) → Honest s → Honest (handle_download uuid e s)
  unfolding handle_download remove_url_download reset_idle_downloads clear_url_downloads
      clear_all_url_downloads reload_downloads
  handle_download-Honest (checked lines answer) s h = check_urls-Honest lines answer s h
  handle_download-Honest (edited id e) s h = edit-Honest id e s h
  handle_download-Honest (removed id) s h =
      persist_downloads-Honest _ s (All-keep _ _ s.jobs h.now) h.later
        (Awaited-keep s.poller _ s.jobs h.awaited)
  handle_download-Honest dialog_opened s h =
      ground (arith, h, persist_downloads-Honest [] s tt h.later (Awaited-nil s.poller))
  handle_download-Honest cleared s h =
      persist_downloads-Honest [] s tt h.later (Awaited-nil s.poller)
  handle_download-Honest all_cleared s h =
      persist_downloads-Honest [] s tt h.later (Awaited-nil s.poller)
  handle_download-Honest pause_over s h = on_pause_over-Honest s.poller s h
  handle_download-Honest (started now) s h = start_downloads-Honest now s h
  handle_download-Honest (reloaded now) s h = record {
    now = load_downloads-Honest now s.saved h.later;
    later = h.later;
    awaited = tt;
  }
  handle_download-Honest (submit_answered now answer) s h =
      on_submit_answer-Honest now answer s.poller s refl h
  handle_download-Honest (ticked rows) s h = on_tick-Honest rows s.poller s refl h
  handle_download-Honest (entry_answered now answer) s h =
      on_entry_answer-Honest now answer s.poller s h

  -- Whatever is called and answered, page reloads included, a progress of 100 is shown only for a
  -- download that is done, and no more than 100 for any, also in the saved list; and the job that
  -- is being submitted shows less than 100. It was so before the first event.
  pub run_downloads-Honest :
      (es : List DownloadEvent) (s : Downloads) → Honest s → Honest (run_downloads uuid es s)
  unfolding run_downloads
  run_downloads-Honest [] s h = h
  run_downloads-Honest (e ∷ es) s h = run_downloads-Honest es _ (handle_download-Honest e s h)
