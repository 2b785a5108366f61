-- ===== src/UploadDialog/Kept.antt =====
-- web/components/upload-dialog.tsx: the invariants of the two queues under the calls of the dialog.
use vidsilo.Base.{ℕ, inl, inr, Option, List, [], ◌∷◌, String, Bool-cases}
use vidsilo.UploadStore.Job.{UploadJob, File, is_pending}
use vidsilo.UploadStore.State.{Store, clear_uploads_completed}
use vidsilo.UploadStore.{add_files, remove_job, reset_idle, clear_all_uploads}
use vidsilo.UploadStore.Named.{NeverRepeats}
use vidsilo.UploadStore.Run.{
  Event, files_added, removed, dialog_opened, all_cleared, started, Enabled, handle, here, next,
  start_all,
}
use vidsilo.UploadStore.Run.Invariant.{Inv}
use vidsilo.UploadStore.Run.Reachable.{Reach-Inv}
use vidsilo.UrlDownloads.Job.{UrlDownloadJob, is_queued}
use vidsilo.UrlDownloads.{
  Downloads, CheckResult, check_urls, reset_idle_downloads, clear_all_url_downloads,
  clear_url_downloads_completed,
}
use vidsilo.UrlDownloads.Polling.{start_downloads}
use vidsilo.UrlDownloads.Events as D
use vidsilo.UrlDownloads.Events.{DownloadEvent, handle_download, run_downloads}
use vidsilo.UrlDownloads.Honest.{Honest}
use vidsilo.UrlDownloads.Honest.Reachable.{run_downloads-Honest}
use vidsilo.UploadDialog.{remove_pending, remove_queued}

module _ (uuid : ℕ → String) (fresh : NeverRepeats uuid) where
  pub handle_one-Inv :
      (e : Event) (s : Store) → Enabled e s → Inv uuid s → Inv uuid (handle uuid e s)
  handle_one-Inv e s n h = Reach-Inv uuid (λ _. Unit {0}) s _ fresh h (next here e tt n)

  pub handle_one-Honest :
      (e : DownloadEvent) (s : Downloads) → Honest s → Honest (handle_download uuid e s)
  unfolding run_downloads
  handle_one-Honest e s h = run_downloads-Honest uuid (e ∷ []) s h

  pub remove_job-Inv : (i : String) (s : Store) → Inv uuid s → Inv uuid (remove_job i s)
  unfolding handle
  remove_job-Inv i s h = handle_one-Inv (removed i) s tt h

  pub add_files_kept : (fs : List File) (s : Store) → Inv uuid s → Inv uuid (add_files uuid fs s).0
  unfolding handle
  add_files_kept fs s h = handle_one-Inv (files_added fs) s tt h

  pub reset_idle_kept : (s : Store) → Inv uuid s → Inv uuid (reset_idle s)
  unfolding handle
  reset_idle_kept s h = handle_one-Inv dialog_opened s tt h

  pub clear_all_uploads_kept : (s : Store) → Inv uuid s → Inv uuid (clear_all_uploads s)
  unfolding handle
  clear_all_uploads_kept s h = handle_one-Inv all_cleared s tt h

  pub start_all_kept : (now : ℕ) (s : Store) → Inv uuid s → Inv uuid (start_all now s)
  unfolding handle
  start_all_kept now s h = handle_one-Inv (started now) s tt h

  pub clear_uploads_completed_kept : (s : Store) → Inv uuid s → Inv uuid (clear_uploads_completed s)
  unfolding clear_uploads_completed
  clear_uploads_completed_kept s h = record {
    named = h.named;
    saved_named = h.saved_named;
    serial = h.serial;
    awaited = h.awaited;
    not_spinning = h.not_spinning;
  }

  pub remove_pending-Inv :
      (js : List UploadJob) (s : Store) → Inv uuid s → Inv uuid (remove_pending js s)
  unfolding remove_pending
  remove_pending-Inv [] s h = h
  remove_pending-Inv (j ∷ js) s h = elim (Bool-cases (is_pending j.status)) [
    | inl e ↦ rw e (remove_pending-Inv js _ (remove_job-Inv j.id s h))
    | inr e ↦ rw e (remove_pending-Inv js s h)
  ]

  pub check_urls_kept :
      (lines : List String) (answer : Option (List CheckResult)) (s : Downloads)
      → Honest s
      → Honest (check_urls uuid lines answer s).0
  unfolding handle_download
  check_urls_kept lines answer s h = handle_one-Honest (D.checked lines answer) s h

  pub remove_queued-Honest :
      (js : List UrlDownloadJob) (s : Downloads) → Honest s → Honest (remove_queued js s)
  unfolding remove_queued handle_download
  remove_queued-Honest [] s h = h
  remove_queued-Honest (j ∷ js) s h = elim (Bool-cases (is_queued j.status)) [
    | inl e ↦ rw e (remove_queued-Honest js _ (handle_one-Honest (D.removed j.id) s h))
    | inr e ↦ rw e (remove_queued-Honest js s h)
  ]

  pub reset_idle_downloads_kept : (s : Downloads) → Honest s → Honest (reset_idle_downloads s)
  unfolding handle_download
  reset_idle_downloads_kept s h = handle_one-Honest D.dialog_opened s h

  pub clear_all_downloads_kept : (s : Downloads) → Honest s → Honest (clear_all_url_downloads s)
  unfolding handle_download
  clear_all_downloads_kept s h = handle_one-Honest D.all_cleared s h

  pub start_downloads_kept : (now : ℕ) (s : Downloads) → Honest s → Honest (start_downloads now s)
  unfolding handle_download
  start_downloads_kept now s h = handle_one-Honest (D.started now) s h

  pub clear_downloads_completed_kept :
      (s : Downloads) → Honest s → Honest (clear_url_downloads_completed s)
  unfolding clear_url_downloads_completed
  clear_downloads_completed_kept s h = record { now = h.now; later = h.later; awaited = h.awaited }
