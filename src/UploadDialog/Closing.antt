-- ===== src/UploadDialog/Closing.antt =====
-- web/components/upload-dialog.tsx: `handleCloseAttempt` and what is discarded.
use vidsilo.Base.{
  ℕ, String, List, All, any, none, ap, ◌==◌, ◌≡◌, refl, ◌∙◌, inl, inr, true, false, not, ◌&&◌, some,
  if◌then◌else◌, Bool-cases, keep, is_blank, trim, trim_start, trim_end,
}
use vidsilo.UploadStore.Job.{UploadJob, is_pending}
use vidsilo.UrlDownloads.Job.{UrlDownloadJob, is_queued}
use vidsilo.UploadStore.State.{clear_uploads_completed}
use vidsilo.UrlDownloads.{clear_url_downloads_completed}
use vidsilo.UploadDialog.{
  UploadDialog, discard, close, any_active, url_queued, has_unstarted, remove_pending,
  remove_queued, discard_pending, handle_close_attempt, on_confirm,
}
use vidsilo.UploadDialog.Removal.{
  pending_hit, queued_hit, jobs-remove_pending, jobs-remove_queued, none_pending, none_queued,
}
use vidsilo.UploadDialog.Events.{UploadDialogEvent, run_dialog_events}
use vidsilo.UploadDialog.Meanwhile.{Background, run_dialog_events-Background}

close_jobs :
    (d : UploadDialog)
    → ((close d).uploads.jobs ≡ d.uploads.jobs)
      × ((close d).downloads.jobs ≡ d.downloads.jobs)
      × ((close d).is_open ≡ false)
      × ((close d).url_text ≡ d.url_text)
unfolding close clear_uploads_completed clear_url_downloads_completed
close_jobs d = (refl, refl, refl, refl)

trim_blank : is_blank (trim "") ≡ true
unfolding trim trim_start trim_end
trim_blank = refl

-- The dialog that asks, after the confirmation.
abbrev discarded : UploadDialog → UploadDialog
discarded d = on_confirm (record d { asking = some (discard d.uploads.jobs d.downloads.jobs) })

jobs-discarded :
    (d : UploadDialog)
    → ((discarded d).uploads.jobs ≡ (remove_pending d.uploads.jobs d.uploads).jobs)
      × ((discarded d).downloads.jobs ≡ (remove_queued d.downloads.jobs d.downloads).jobs)
      × ((discarded d).is_open ≡ false)
      × ((discarded d).url_text ≡ "")
unfolding on_confirm discard_pending close clear_uploads_completed clear_url_downloads_completed
jobs-discarded d = (refl, refl, refl, refl)

has_unstarted-discarded : (d : UploadDialog) → has_unstarted (discarded d) ≡ false
unfolding has_unstarted url_queued
has_unstarted-discarded d =
    let (u, v, _, w) = jobs-discarded d in
    rw (u, v, w, none_pending d.uploads, none_queued d.downloads, trim_blank) refl

-- A confirmation of what was asked of some jobs.
on_discard :
    (js : List UploadJob) (us : List UrlDownloadJob) (r : UploadDialog)
    → r.asking ≡ some (discard js us)
    → let t = on_confirm r in
      (t.is_open ≡ false)
      × (t.asking ≡ none)
      × (t.url_text ≡ "")
      × (t.uploads.jobs ≡ keep (λ j. not (pending_hit js j)) r.uploads.jobs)
      × (t.downloads.jobs ≡ keep (λ j. not (queued_hit us j)) r.downloads.jobs)
unfolding on_confirm discard_pending close clear_uploads_completed clear_url_downloads_completed
on_discard js us r e =
    rw (e, on_confirm)
      (refl, refl, refl, jobs-remove_pending js r.uploads, jobs-remove_queued us r.downloads)

asks :
    (d : UploadDialog)
    → any_active d ≡ false
    → has_unstarted d ≡ true
    → handle_close_attempt d ≡ record d { asking = some (discard d.uploads.jobs d.downloads.jobs) }
unfolding handle_close_attempt
asks d a u = rw (a, handle_close_attempt, u) refl

-- The close button closes the dialog exactly where work is active or nothing is unstarted, and else
-- asks, of the jobs that there are; on both branches all jobs stay.
handle_close_attempt_lem :
    (d : UploadDialog)
    → let must_ask = not (any_active d) && has_unstarted d in
      let t = handle_close_attempt d in
      (t.is_open ≡ (must_ask && d.is_open))
      × (t.asking ≡ (if must_ask then some (discard d.uploads.jobs d.downloads.jobs) else d.asking))
      × (t.uploads.jobs ≡ d.uploads.jobs)
      × (t.downloads.jobs ≡ d.downloads.jobs)
unfolding handle_close_attempt close clear_uploads_completed clear_url_downloads_completed
handle_close_attempt_lem d = elim (Bool-cases (any_active d)) [
  | inl a ↦ rw (a, handle_close_attempt) (refl, refl, refl, refl)
  | inr a ↦ elim (Bool-cases (has_unstarted d)) [
    | inl u ↦ rw (a, handle_close_attempt, u) (refl, refl, refl, refl)
    | inr u ↦ rw (a, handle_close_attempt, u) (refl, refl, refl, refl)
  ]
]

-- Where the close button asks, and then the user confirms, whatever the queues do in between, the
-- dialog is closed, no text of URLs is left, and what goes of both queues is what had not started
-- when the user was asked, also where it has started since. Where the user confirms at once,
-- nothing that was not started is left.
pub on_confirm-handle_close_attempt :
    (uuid : ℕ → String) (es : List UploadDialogEvent) (d : UploadDialog)
    → any_active d ≡ false
    → has_unstarted d ≡ true
    → All Background es
    → let r = run_dialog_events uuid es (handle_close_attempt d) in
      let t = on_confirm r in
      (t.is_open ≡ false)
      × (t.asking ≡ none)
      × (t.url_text ≡ "")
      × (t.uploads.jobs
          ≡ keep
              (λ j. not (any (λ k. is_pending k.status && (k.id == j.id)) d.uploads.jobs))
              r.uploads.jobs)
      × (t.downloads.jobs
          ≡ keep
              (λ j. not (any (λ k. is_queued k.status && (k.id == j.id)) d.downloads.jobs))
              r.downloads.jobs)
      × (has_unstarted (on_confirm (handle_close_attempt d)) ≡ false)
on_confirm-handle_close_attempt uuid es d a u n =
    let (k, _) = run_dialog_events-Background uuid es (handle_close_attempt d) n in
    let asked : (handle_close_attempt d).asking ≡ some (discard d.uploads.jobs d.downloads.jobs) =
      ap (λ q. q.asking) (asks d a u) in
    let (o, p, q, s, v) =
      on_discard d.uploads.jobs d.downloads.jobs
        (run_dialog_events uuid es (handle_close_attempt d)) (k ∙ asked) in
    (o, p, q, s, v, rw (asks d a u) (has_unstarted-discarded d))
